-- ===== src/Memory/Paging.antt =====
-- kernel/memory/paging.c: four-level page tables in byte memory. The bit-fields of `PageEntry` lie
-- in a 64-bit word in the order of their declaration, the layout that the header describes.
-- `pml4`, which `initPML4` takes from CR3, is an argument; `flushTLB` is the address that is
-- flushed, handed back beside the memory. A frame is a bit-field of 40 bits, and gcc shifts it in 40
-- bits where it is not cast first: `next_table` is the shift with the cast and `frame_address` the
-- one without.
pub mod Entry
pub mod Walk
pub mod Space
pub mod Fresh
pub mod Grow
mod Tests
use maken_os.Base.{
  ℕ, ◌+◌, ◌*◌, ◌/◌, ◌%◌, ◌^◌, Bool, Option, none, some, ◌>>=◌, ◌==◌, if◌then◌else◌, bit_and, ◌>>>◌,
  ◌<<<◌, Memory, read_le, write_le,
}
use maken_os.Memory.Pmm.{MemmapEntry, address_of, k_malloc}

pub record PageEntry : Type 0 where
  pub present : ℕ
  pub writable : ℕ
  pub user_accessible : ℕ
  pub write_through_caching : ℕ
  pub disable_cache : ℕ
  pub accessed : ℕ
  pub dirty : ℕ
  pub null : ℕ
  pub global : ℕ
  pub avl1 : ℕ
  pub physical_address : ℕ
  pub avl2 : ℕ
  pub no_execute : ℕ

unfoldable pub of_word : ℕ → PageEntry
of_word w = record {
  present = w % 2;
  writable = w / 2 ^ 1 % 2;
  user_accessible = w / 2 ^ 2 % 2;
  write_through_caching = w / 2 ^ 3 % 2;
  disable_cache = w / 2 ^ 4 % 2;
  accessed = w / 2 ^ 5 % 2;
  dirty = w / 2 ^ 6 % 2;
  null = w / 2 ^ 7 % 2;
  global = w / 2 ^ 8 % 2;
  avl1 = w / 2 ^ 9 % 2 ^ 3;
  physical_address = w / 2 ^ 12 % 2 ^ 40;
  avl2 = w / 2 ^ 52 % 2 ^ 11;
  no_execute = w / 2 ^ 63 % 2;
}

unfoldable pub to_word : PageEntry → ℕ
to_word e =
    e.present
    + e.writable * 2 ^ 1
    + e.user_accessible * 2 ^ 2
    + e.write_through_caching * 2 ^ 3
    + e.disable_cache * 2 ^ 4
    + e.accessed * 2 ^ 5
    + e.dirty * 2 ^ 6
    + e.null * 2 ^ 7
    + e.global * 2 ^ 8
    + e.avl1 * 2 ^ 9
    + e.physical_address * 2 ^ 12
    + e.avl2 * 2 ^ 52
    + e.no_execute * 2 ^ 63

-- `table->entries[index]`
unfoldable pub entry_at : ℕ → ℕ → Memory → PageEntry
entry_at table index m = of_word (read_le 8 m (table + 8 * index))

unfoldable pub store_entry : ℕ → ℕ → PageEntry → Memory → Memory
store_entry table index e m = write_le 8 m (table + 8 * index) (to_word e)

-- `((cr3 >> 12) << 12)`
unfoldable pub init_pml4 : ℕ → ℕ
init_pml4 cr3 = (cr3 >>> 12) <<< 12

-- A bit-field keeps the low bits of what is assigned; `accessed` and `dirty` are left alone.
unfoldable pub set_page_table_entry : PageEntry → ℕ → ℕ → ℕ → PageEntry
set_page_table_entry entry flags physical_address available = record entry {
  present = bit_and (flags >>> 1) 1;
  writable = bit_and (flags >>> 2) 1;
  user_accessible = bit_and (flags >>> 3) 1;
  write_through_caching = bit_and (bit_and flags 0x8) 1;
  disable_cache = bit_and (bit_and flags 0x10) 1;
  null = bit_and (bit_and flags 0x20) 1;
  global = bit_and (bit_and flags 0x40) 1;
  avl1 = bit_and available 0x3;
  physical_address = physical_address % 2 ^ 40;
  avl2 = (available >>> 3) % 2 ^ 11;
  no_execute = (flags >>> 7) % 2;
}

pub pml4_index : ℕ → ℕ
pml4_index address = bit_and (address >>> 39) 0x1ff

pub page_directory_pointer_index : ℕ → ℕ
page_directory_pointer_index address = bit_and (address >>> 30) 0x1ff

pub page_directory_index : ℕ → ℕ
page_directory_index address = bit_and (address >>> 21) 0x1ff

pub page_table_index : ℕ → ℕ
page_table_index address = bit_and (address >>> 12) 0x1ff

-- `(PageTable*) ((uint64_t) table->entries[index].physical_address << 12)`
unfoldable pub next_table : ℕ → ℕ → Memory → ℕ
unfolding entry_at
next_table table index m = (entry_at table index m).physical_address <<< 12

-- `table->entries[index].physical_address << 12`, in the 40 bits of the bit-field.
unfoldable pub frame_address : ℕ → ℕ → Memory → ℕ
unfolding entry_at
frame_address table index m = ((entry_at table index m).physical_address <<< 12) % 2 ^ 40

unfoldable pub get_physical_address : ℕ → ℕ → Memory → ℕ
unfolding next_table frame_address
get_physical_address pml4 virtual_address m =
    let offset = bit_and virtual_address 0xfff in
    let page_directory_pointer = next_table pml4 (pml4_index virtual_address) m in
    let page_directory =
      next_table page_directory_pointer (page_directory_pointer_index virtual_address) m in
    let page_table = next_table page_directory (page_directory_index virtual_address) m in
    frame_address page_table (page_table_index virtual_address) m + offset

-- `none` means that the fuel of `k_malloc` ran out.
unfoldable pub allocate_entry : ℕ → MemmapEntry → ℕ → ℕ → ℕ → Memory → Option Memory
allocate_entry fuel memmap table index flags m = do
  (physical_address, m') ← k_malloc fuel memmap 4096 m
  some (
      store_entry table index
        (set_page_table_entry (entry_at table index m') flags (address_of physical_address >>> 12)
          0)
        m')

-- `if (!table->entries[index].present) allocateEntry(table, index, flags);`
unfoldable pub ensure_entry : ℕ → MemmapEntry → ℕ → ℕ → ℕ → Memory → Option Memory
ensure_entry fuel memmap table index flags m =
    if (entry_at table index m).present == 0
    then allocate_entry fuel memmap table index flags m
    else some m

unfoldable pub map_page : ℕ → MemmapEntry → ℕ → ℕ → ℕ → ℕ → Memory → Option (Memory × ℕ)
unfolding frame_address
map_page fuel memmap pml4 virtual_address physical_address flags m = do
  m1 ← ensure_entry fuel memmap pml4 (pml4_index virtual_address) flags m
  let page_directory_pointer = frame_address pml4 (pml4_index virtual_address) m1
  m2 ←
      ensure_entry fuel memmap page_directory_pointer (page_directory_pointer_index virtual_address)
        flags m1
  let page_directory =
      frame_address page_directory_pointer (page_directory_pointer_index virtual_address) m2
  m3 ← ensure_entry fuel memmap page_directory (page_directory_index virtual_address) flags m2
  let page_table = frame_address page_directory (page_directory_index virtual_address) m3
  let index = page_table_index virtual_address
  let entry = set_page_table_entry (entry_at page_table index m3) flags (physical_address >>> 12) 0
  some (store_entry page_table index entry m3, virtual_address)
