-- ===== src/Memory/Paging/Entry.antt =====
-- The bits of a page table entry in kernel/memory/paging.c, and the parts of an address.
use maken_os.Base.{
  ℕ, ◌+◌, ◌*◌, ◌/◌, ◌%◌, ◌^◌, ◌<◌, ◌≡◌, ◌∙◌, ap, arith, bit_and, bit_and_mask, bit_and-mod_two, ◌⊎◌,
  ◌≤◌, refl, Memory, SameOutside, read_le, read_le_ext, write_le-SameOutside, read_le-write_le,
}
use maken_os.Memory.Paging.{
  next_table, frame_address, PageEntry, of_word, to_word, entry_at, store_entry,
  set_page_table_entry, pml4_index, page_directory_pointer_index, page_directory_index,
  page_table_index,
}

-- Each field fits its width.
pub record IsEntry (e : PageEntry) : Type 0 where
  pub present : e.present < 2
  pub writable : e.writable < 2
  pub user_accessible : e.user_accessible < 2
  pub write_through_caching : e.write_through_caching < 2
  pub disable_cache : e.disable_cache < 2
  pub accessed : e.accessed < 2
  pub dirty : e.dirty < 2
  pub null : e.null < 2
  pub global : e.global < 2
  pub avl1 : e.avl1 < 2 ^ 3
  pub physical_address : e.physical_address < 2 ^ 40
  pub avl2 : e.avl2 < 2 ^ 11
  pub no_execute : e.no_execute < 2

pub of_word-IsEntry : (w : ℕ) → IsEntry (of_word w)
unfolding of_word
of_word-IsEntry w = omega arith

pub to_word-lt : (e : PageEntry) → IsEntry e → to_word e < 2 ^ 64
unfolding to_word
to_word-lt e v = omega arith

of_word-to_word : (e : PageEntry) → IsEntry e → of_word (to_word e) ≡ e
unfolding of_word to_word
of_word-to_word e v = ground arith

masked_low : (a b : ℕ) → b % 2 ≡ 0 → bit_and (bit_and a b) 1 ≡ 0
masked_low a b even = omega (arith, bit_and_mask 1 (bit_and a b), bit_and-mod_two a b)

-- What `setPageTableEntry` makes of the flags: bits 1 to 3 give the access rights and bit 7 forbids
-- execution; the four fields that come from the masks 0x8 to 0x40 are always 0, whatever the flags.
pub record Assigned (e : PageEntry) (flags frame available : ℕ) (e' : PageEntry) : Type 0 where
  pub present : e'.present ≡ flags / 2 % 2
  pub writable : e'.writable ≡ flags / 4 % 2
  pub user_accessible : e'.user_accessible ≡ flags / 8 % 2
  pub write_through_caching : e'.write_through_caching ≡ 0
  pub disable_cache : e'.disable_cache ≡ 0
  pub null : e'.null ≡ 0
  pub global : e'.global ≡ 0
  pub accessed : e'.accessed ≡ e.accessed
  pub dirty : e'.dirty ≡ e.dirty
  pub avl1 : e'.avl1 ≡ available % 4
  pub physical_address : e'.physical_address ≡ frame % 2 ^ 40
  pub avl2 : e'.avl2 ≡ available / 8 % 2 ^ 11
  pub no_execute : e'.no_execute ≡ flags / 128 % 2

pub set_page_table_entry-Assigned :
    (e : PageEntry) (flags frame available : ℕ)
    → Assigned e flags frame available (set_page_table_entry e flags frame available)
unfolding set_page_table_entry
set_page_table_entry-Assigned e flags frame available = record {
  present = bit_and_mask 1 (flags / 2 ^ 1);
  writable = bit_and_mask 1 (flags / 2 ^ 2);
  user_accessible = bit_and_mask 1 (flags / 2 ^ 3);
  write_through_caching = masked_low flags 0x8 refl;
  disable_cache = masked_low flags 0x10 refl;
  null = masked_low flags 0x20 refl;
  global = masked_low flags 0x40 refl;
  accessed = refl;
  dirty = refl;
  avl1 = bit_and_mask 2 available;
  physical_address = refl;
  avl2 = refl;
  no_execute = refl;
}

pub set_page_table_entry-IsEntry :
    (e : PageEntry) (flags frame available : ℕ)
    → IsEntry e
    → IsEntry (set_page_table_entry e flags frame available)
set_page_table_entry-IsEntry e flags frame available v =
    let a = set_page_table_entry-Assigned e flags frame available in omega arith

pub entry_at-IsEntry : (table index : ℕ) (m : Memory) → IsEntry (entry_at table index m)
unfolding entry_at
entry_at-IsEntry table index m = of_word-IsEntry (read_le 8 m (table + 8 * index))

pub entry_at-store_entry :
    (table index : ℕ) (e : PageEntry) (m : Memory)
    → IsEntry e
    → entry_at table index (store_entry table index e m) ≡ e
unfolding entry_at store_entry
entry_at-store_entry table index e m v =
    ap of_word (read_le-write_le 8 m (table + 8 * index) (to_word e) (to_word-lt e v))
    ∙ of_word-to_word e v

pub store_entry-SameOutside :
    (table index : ℕ) (e : PageEntry) (m : Memory)
    → SameOutside (table + 8 * index) 8 m (store_entry table index e m)
unfolding store_entry
store_entry-SameOutside table index e m = write_le-SameOutside 8 m (table + 8 * index) (to_word e)

-- Two slots that do not overlap.
abbrev pub Apart : ℕ → ℕ → Type 0
Apart s t = (s + 8 ≤ t) ⊎ (t + 8 ≤ s)

pub entry_at-store_entry_ne :
    (table index table' index' : ℕ) (e : PageEntry) (m : Memory)
    → Apart (table + 8 * index) (table' + 8 * index')
    → entry_at table' index' (store_entry table index e m) ≡ entry_at table' index' m
unfolding entry_at
entry_at-store_entry_ne table index table' index' e m apart = ap of_word (
    read_le_ext 8 m (store_entry table index e m) (table' + 8 * index')
      λ b lo hi. store_entry-SameOutside table index e m b (ground arith))

pub indices_as_parts :
    (va : ℕ)
    → (pml4_index va ≡ va / 2 ^ 39 % 512)
      × (page_directory_pointer_index va ≡ va / 2 ^ 30 % 512)
      × (page_directory_index va ≡ va / 2 ^ 21 % 512)
      × (page_table_index va ≡ va / 2 ^ 12 % 512)
      × (bit_and va 0xfff ≡ va % 4096)
unfolding pml4_index page_directory_pointer_index page_directory_index page_table_index
indices_as_parts va = (
  bit_and_mask 9 (va / 2 ^ 39),
  bit_and_mask 9 (va / 2 ^ 30),
  bit_and_mask 9 (va / 2 ^ 21),
  bit_and_mask 9 (va / 2 ^ 12),
  bit_and_mask 12 va,
)

-- Each of the four indices of a 48-bit virtual address lies in its table, and with the offset they
-- make up the address.
index_split :
    (va : ℕ)
    → va < 2 ^ 48
    → (pml4_index va < 512)
      × (page_directory_pointer_index va < 512)
      × (page_directory_index va < 512)
      × (page_table_index va < 512)
      × (va
          ≡ pml4_index va * 2 ^ 39
            + page_directory_pointer_index va * 2 ^ 30
            + page_directory_index va * 2 ^ 21
            + page_table_index va * 2 ^ 12
            + bit_and va 0xfff)
index_split va h = omega (arith, indices_as_parts va)

-- Below 2^40 the frame is the same with the cast and without it.
pub frame_address-low :
    (t i : ℕ) (m : Memory) → next_table t i m < 2 ^ 40 → frame_address t i m ≡ next_table t i m
unfolding frame_address next_table
frame_address-low t i m low = omega arith
