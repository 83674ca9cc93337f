-- ===== src/Memory/Paging/Fresh.antt =====
-- `allocateEntry` of kernel/memory/paging.c on the block that `k_malloc` of kernel/memory/pmm.c hands
-- out: the table that the new entry names begins 8 bytes before that block.
use mathlib.Core.Path.{subst}
use native.Mathlib.Nat.{add-zero}
use maken_os.Base.{
  ℕ, ◌/◌, suc, ◌+◌, ◌-◌, ◌*◌, ◌%◌, ◌^◌, ◌≤◌, ◌<◌, ◌≡◌, refl, ◌∙◌, sym, ap, arith, some, ◌⊎◌, ◌>>>◌,
  ◌<<<◌, Memory, read_le, read_le_ext, read_le-zeros, read_le-write_le,
}
use maken_os.Klib.Mem.{memset}
use maken_os.Memory.Pmm.{MemmapEntry, block_size, k_malloc, k_free}
use maken_os.Memory.Pmm.Blocks.{Allocated, k_malloc-Allocated}
use maken_os.Memory.Paging.{
  PageEntry, of_word, to_word, entry_at, store_entry, set_page_table_entry, next_table,
  frame_address, allocate_entry, ensure_entry,
}
use maken_os.Memory.Paging.Entry.{
  frame_address-low, IsEntry, to_word-lt, set_page_table_entry-IsEntry,
  set_page_table_entry-Assigned, entry_at-IsEntry, entry_at-store_entry, store_entry-SameOutside,
}

pub ensure_entry-absent :
    (fuel : ℕ) (memmap : MemmapEntry) (table index flags q : ℕ) (m m1 : Memory)
    → (entry_at table index m).present ≡ 0
    → k_malloc fuel memmap 4096 m ≡ some (some q, m1)
    → ensure_entry fuel memmap table index flags m
      ≡ some (
          store_entry table index
            (set_page_table_entry (entry_at table index m1) flags (q >>> 12) 0)
            m1)
unfolding ensure_entry allocate_entry
ensure_entry-absent fuel memmap table index flags q m m1 absent runs = rw (absent, runs) refl

-- The page at `p` as the table that the entry names: its first entry is the header of the block.
pub record IsHeaderTable (table index p : ℕ) (m : Memory) : Type 0 where
  pub names : frame_address table index m ≡ p
  pub header : read_le 8 m p ≡ 4096
  pub clear : (i : ℕ) → 1 ≤ i → i < 512 → (entry_at p i m).present ≡ 0
  pub overwritten :
      (e : PageEntry)
      → IsEntry e
      → k_free (p + 8) (store_entry p 0 e m) ≡ memset (p + 8) 0 (to_word e) (store_entry p 0 e m)

module _ (table index flags p length base : ℕ) (m m1 : Memory) (aligned : p % 4096 ≡ 0)
    (low : p < 2 ^ 40) (taken : Allocated base length 4096 m (p + 8) m1)
    (outside : (table + 8 * index + 8 ≤ p) ⊎ (p + 8 + 8 * 4096 ≤ table + 8 * index)) where
  abbrev pub entry : PageEntry
  entry = set_page_table_entry (entry_at table index m1) flags ((p + 8) >>> 12) 0

  abbrev pub after : Memory
  after = store_entry table index entry m1

  after-same : (b : ℕ) → p ≤ b → b < p + 8 + 8 * 4096 → after b ≡ m1 b
  after-same b lo hi = store_entry-SameOutside table index entry m1 b (ground arith)

  back : p + 8 - 8 ≡ p
  back = omega arith

  pub after-entry : entry_at table index after ≡ entry
  after-entry =
      entry_at-store_entry table index entry m1
        (set_page_table_entry-IsEntry _ flags _ 0 (entry_at-IsEntry table index m1))

  pub after-names : next_table table index after ≡ p
  unfolding next_table set_page_table_entry
  after-names = ap (λ (e : PageEntry). e.physical_address <<< 12) after-entry ∙ omega arith

  after-frame : frame_address table index after ≡ p
  after-frame =
      frame_address-low table index after (subst (λ (t : ℕ). t < 2 ^ 40) (sym after-names) low)
      ∙ after-names

  pub after-present : (entry_at table index after).present ≡ flags / 2 % 2
  after-present =
      ap (λ (e : PageEntry). e.present) after-entry
      ∙ (set_page_table_entry-Assigned (entry_at table index m1) flags ((p + 8) >>> 12) 0).present

  after-header : read_le 8 after p ≡ 4096
  after-header =
      read_le_ext 8 m1 after p (λ b lo hi. after-same b lo (omega arith))
      ∙ (rw back at taken.header)

  after-clear : (i : ℕ) → 1 ≤ i → i < 512 → (entry_at p i after).present ≡ 0
  unfolding entry_at of_word
  after-clear i lo hi =
      ap (λ (w : ℕ). w % 2)
        (read_le-zeros 8 after (p + 8 * i) λ b from to.
          after-same b (omega arith) (omega arith) ∙ taken.zeroed b (omega arith) (omega arith))

  after-overwritten :
      (e : PageEntry)
      → IsEntry e
      → k_free (p + 8) (store_entry p 0 e after)
        ≡ memset (p + 8) 0 (to_word e) (store_entry p 0 e after)
  unfolding k_free store_entry
  after-overwritten e v =
      ap (λ (size : ℕ). memset (p + 8) 0 size (store_entry p 0 e after))
        (ap (read_le 8 (store_entry p 0 e after)) (back ∙ sym (add-zero p))
          ∙ read_le-write_le 8 after (p + 8 * 0) (to_word e) (to_word-lt e v))

  after-IsHeaderTable : IsHeaderTable table index p after
  after-IsHeaderTable = record {
    names = after-frame;
    header = after-header;
    clear = after-clear;
    overwritten = after-overwritten;
  }

-- In an entry of more than 4096 words, of a length below 2^60 and with fuel for one halving more than
-- lead down to a block: where an entry is not present, lies outside the block that `k_malloc` returns for its table, and
-- that block is one word behind the start `p` of a page below 2^40, the table that `mapPage` then
-- finds begins at `p` and not at the block: its entries from the second on are not present, but its
-- first one is the header of the block, and a `k_free` of the block after an entry was stored there
-- takes that entry for the size.
pub ensure_entry-IsHeaderTable :
    (halvings : ℕ) (memmap : MemmapEntry) (table index flags p : ℕ) (m m1 : Memory)
    → 4096 < memmap.length
    → memmap.length < 2 ^ 60
    → memmap.length ≤ block_size * 2 ^ halvings
    → (entry_at table index m).present ≡ 0
    → k_malloc (suc halvings) memmap 4096 m ≡ some (some (p + 8), m1)
    → p % 4096 ≡ 0
    → p < 2 ^ 40
    → (table + 8 * index + 8 ≤ p) ⊎ (p + 8 + 8 * 4096 ≤ table + 8 * index)
    → (m' : Memory) × (ensure_entry (suc halvings) memmap table index flags m ≡ some m')
      × IsHeaderTable table index p m'
ensure_entry-IsHeaderTable halvings memmap table index flags p m m1 fits small enough absent runs
      aligned low outside =
    (
      after table index flags p memmap.length memmap.base m m1 aligned low taken outside,
      ensure_entry-absent (suc halvings) memmap table index flags (p + 8) m m1 absent runs,
      after-IsHeaderTable table index flags p memmap.length memmap.base m m1 aligned low taken
          outside,
    )
  where
    taken : Allocated memmap.base memmap.length 4096 m (p + 8) m1
    taken = k_malloc-Allocated halvings 4096 (p + 8) memmap m m1 (omega arith) small enough runs
