-- ===== src/Memory/Pmm/Faults.antt =====
-- What goes wrong in kernel/memory/pmm.c: a freed block is not given back, and a block may be handed
-- out inside another one.
use maken_os.Base.{
  ℕ, suc, ◌+◌, ◌-◌, ◌*◌, ◌/◌, ◌^◌, ◌≤◌, ◌<◌, ◌≡◌, ◌≢◌, ◌∙◌, sym, ap, some, arith, Memory, read_le,
  read_le_ext, read_le-zeros,
}
use maken_os.Klib.Mem.Laws.{memset_lem}
use maken_os.Memory.Pmm.{MemmapEntry, block_size, take_block, b_malloc, k_malloc, k_free}
use maken_os.Memory.Pmm.Blocks.{Allocated, take_block-Allocated, k_malloc-Allocated}

k_free-header : (p : ℕ) (m : Memory) → 8 ≤ p → read_le 8 (k_free p m) (p - 8) ≡ read_le 8 m (p - 8)
unfolding k_free
k_free-header p m h =
    read_le_ext 8 m (k_free p m) (p - 8)
      λ b lo hi. ground (arith, memset_lem p 0 (read_le 8 m (p - 8)) m b)

-- A block, at 8 or above, whose header is not 0 is not given back: when a `k_malloc` right after its `k_free`, of a
-- size below the length of an entry below 2^60 and with fuel for the halvings, returns a block, it is
-- not the one that was freed.
pub k_free-not_reused :
    (halvings p size q : ℕ) (memmap : MemmapEntry) (m m' : Memory)
    → size + 1 ≤ memmap.length
    → memmap.length < 2 ^ 60
    → memmap.length ≤ block_size * 2 ^ halvings
    → 8 ≤ p
    → read_le 8 m (p - 8) ≢ 0
    → k_malloc (suc halvings) memmap size (k_free p m) ≡ some (some q, m')
    → q ≢ p
k_free-not_reused halvings p size q memmap m m' fits small enough h used runs same =
    used (sym (k_free-header p m h) ∙ free)
  where
    served : Allocated memmap.base memmap.length size (k_free p m) q m'
    served = k_malloc-Allocated halvings size q memmap (k_free p m) m' fits small enough runs

    free : read_le 8 (k_free p m) (p - 8) ≡ 0
    free = ap (λ (t : ℕ). read_le 8 (k_free p m) (t - 8)) (sym same) ∙ served.was_free

-- In an entry of one or two blocks whose first word is 0, a first call for more than half of its
-- words and a second one for less than half both succeed, and the second block starts inside the
-- first and past the bytes of the entry.
pub second_block_overlaps :
    (first second : ℕ) (memmap : MemmapEntry) (m : Memory)
    → block_size < memmap.length
    → memmap.length ≤ 2 * block_size
    → memmap.length / 2 < first
    → first + 1 ≤ memmap.length
    → second + 1 ≤ memmap.length / 2
    → read_le 8 m memmap.base ≡ 0
    → (p q : ℕ) × (m1 m2 : Memory) × (k_malloc 2 memmap first m ≡ some (some p, m1))
      × (k_malloc 2 memmap second m1 ≡ some (some q, m2))
      × (p < q)
      × (q < p + 8 * first)
      × (memmap.base + memmap.length ≤ q)
unfolding k_malloc b_malloc
second_block_overlaps first second memmap m inner two big fits small free = (
  base + 8,
  base + 8 * half + 8,
  m1,
  (take_block (base + 8 * half) second m1).1,
  unfold take_block in ground arith,
  unfold take_block in ground (arith, at_base, at_half),
  omega arith,
  omega arith,
  omega arith,
)
  where
    base : ℕ
    base = memmap.base

    half : ℕ
    half = memmap.length / 2

    m1 : Memory
    m1 = (take_block base first m).1

    taken : Allocated base memmap.length first m (base + 8) m1
    taken = take_block-Allocated base memmap.length first m fits (omega arith) free

    back : base + 8 - 8 ≡ base
    back = omega arith

    at_base : read_le 8 m1 base ≡ first
    at_base = rw back at taken.header

    at_half : read_le 8 m1 (base + 8 * half) ≡ 0
    at_half =
        read_le-zeros 8 m1 (base + 8 * half) λ b lo hi. taken.zeroed b (omega arith) (omega arith)
