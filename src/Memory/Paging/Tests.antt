-- ===== src/Memory/Paging/Tests.antt =====
-- Runs of kernel/memory/paging.c.
use maken_os.Base.{
  ℕ, zero, suc, List, [], ◌∷◌, ◌∙◌, ap, ◌+◌, ◌*◌, ◌/◌, ◌%◌, ◌^◌, ◌<◌, ◌≡◌, refl, arith, some,
  if◌then◌else◌, ◌==◌, Memory, read_le, SameOutside,
}
use maken_os.Memory.Pmm.{MemmapEntry, take_block, b_malloc, k_malloc}
use maken_os.Memory.Paging.{
  entry_at, of_word, pml4_index, page_directory_pointer_index, page_directory_index,
  page_table_index, get_physical_address, ensure_entry, map_page, next_table,
}
use maken_os.Memory.Paging.Entry.{Assigned, Apart, indices_as_parts}
use maken_os.Memory.Paging.Walk.{
  IsMapped, Avoids, directory_pointer, directory, table, leaf, get_physical_address-leaf,
  get_physical_address-map_page,
}
use maken_os.Memory.Paging.Fresh.{IsHeaderTable, ensure_entry-IsHeaderTable}
use maken_os.Memory.Paging.Grow.{LacksTable, map_page-grows}
use maken_os.Memory.Paging.Space.{
  Mapping, map_pages, map_frames, IsSpace, Represents, AreWithin, map_pages-map_frames,
}

abbrev usable : MemmapEntry
usable = record { base = 0x10000; length = 0x2000; kind = 0 }

-- Tables at 0x1000, 0x2000, 0x3000 and 0x4000, each with its first entry present.
abbrev tables : Memory
tables a =
    if a == 0x1000
    then 1
    else if a == 0x1001
    then 0x20
    else if a == 0x2000
    then 1
    else if a == 0x2001
    then 0x30
    else if a == 0x3000
    then 1
    else if a == 0x3001
    then 0x40
    else 0

tables-IsMapped : IsMapped 0x1000 0x123 tables
unfolding next_table entry_at of_word read_le pml4_index page_directory_pointer_index
    page_directory_index
tables-IsMapped = record {
  top = refl;
  second = refl;
  third = refl;
  top_low = omega arith;
  second_low = omega arith;
  third_low = omega arith;
}

tables-Avoids : Avoids 0x1000 0x123 (leaf 0x1000 0x123 tables) tables
unfolding next_table entry_at of_word read_le pml4_index page_directory_pointer_index
    page_directory_index page_table_index
tables-Avoids = record { top = ground arith; second = ground arith; third = ground arith }

get_physical_address-map_page_example :
    (m' : Memory) × (map_page 2 usable 0x1000 0x123 0xabc000 7 tables ≡ some (m', 0x123))
    × (get_physical_address 0x1000 0x123 m' ≡ 0xabc000 / 4096 % 2 ^ 28 * 4096 + 0x123 % 4096)
    × Assigned
        (entry_at (table 0x1000 0x123 tables) (page_table_index 0x123) tables)
        7
        (0xabc000 / 4096)
        0
        (entry_at (table 0x1000 0x123 tables) (page_table_index 0x123) m')
    × ((va' : ℕ)
        → Avoids 0x1000 va' (leaf 0x1000 0x123 tables) tables
        → Apart (leaf 0x1000 0x123 tables) (leaf 0x1000 va' tables)
        → get_physical_address 0x1000 va' m' ≡ get_physical_address 0x1000 va' tables)
    × SameOutside (leaf 0x1000 0x123 tables) 8 tables m'
get_physical_address-map_page_example =
    get_physical_address-map_page 2 usable 0x1000 0x123 0xabc000 7 tables tables-IsMapped
      tables-Avoids

-- The two pages that the first two entries of the last table map, at first both to frame 0.
abbrev InTwoPages : ℕ → Type 0
InTwoPages va = va < 0x2000

low_indices :
    (va : ℕ)
    → InTwoPages va
    → (pml4_index va ≡ 0)
      × (page_directory_pointer_index va ≡ 0)
      × (page_directory_index va ≡ 0)
      × (page_table_index va ≡ va / 4096)
low_indices va low = omega (arith, indices_as_parts va)

low_tables :
    (va : ℕ)
    → InTwoPages va
    → (directory_pointer 0x1000 va tables ≡ 0x2000)
      × (directory 0x1000 va tables ≡ 0x3000)
      × (table 0x1000 va tables ≡ 0x4000)
unfolding next_table entry_at of_word read_le
low_tables va low =
    let i = low_indices va low in (rw i.0 refl, rw (i.0, i.1) refl, rw (i.0, i.1, i.2) refl)

low_leaf : (va : ℕ) → InTwoPages va → leaf 0x1000 va tables ≡ 0x4000 + 8 * (va / 4096)
low_leaf va low = rw ((low_tables va low).2, (low_indices va low).3) refl

low_pages-IsSpace : IsSpace 0x1000 InTwoPages tables
unfolding entry_at of_word read_le
low_pages-IsSpace = record {
  walks = λ va low. record {
    top = rw (low_indices va low).0 refl;
    second = rw ((low_tables va low).0, (low_indices va low).1) refl;
    third = rw ((low_tables va low).1, (low_indices va low).2) refl;
    top_low = rw ((low_tables va low).0) (omega arith);
    second_low = rw ((low_tables va low).1) (omega arith);
    third_low = rw ((low_tables va low).2) (omega arith);
  };
  avoids = λ va va' low low'.
      let l = low_leaf va low in
      let t = low_tables va' low' in
      let i = low_indices va' low' in
      record { top = omega arith; second = omega arith; third = omega arith };
  leaves = λ va va' low low' other.
      let l = low_leaf va low in let l' = low_leaf va' low' in ground arith;
}

low_frame : (i : ℕ) → i < 2 → (entry_at 0x4000 i tables).physical_address ≡ 0
unfolding entry_at of_word read_le
low_frame zero _ = refl
low_frame (suc zero) _ = refl
low_frame (suc (suc i)) h = absurd (omega arith)

low_pages-Represents : Represents 0x1000 InTwoPages (λ page. 0) tables
low_pages-Represents va low =
    get_physical_address-leaf 0x1000 va tables
    ∙ ap (λ (x : ℕ). x % 2 ^ 28 * 4096 + va % 4096) {y = 0}
        (rw ((low_tables va low).2, (low_indices va low).3) (low_frame (va / 4096) (omega arith)))

abbrev calls : List Mapping
calls =
    record { virtual_address = 0x123; physical_address = 0xabc000; flags = 7 }
    ∷ record { virtual_address = 0x1000; physical_address = 0xdef000; flags = 2 }
    ∷ record { virtual_address = 0x0; physical_address = 0x111000; flags = 2 }
    ∷ []

map_pages-map_frames_example :
    (m' : Memory) × (map_pages 2 usable 0x1000 calls tables ≡ some m')
    × IsSpace 0x1000 InTwoPages m'
    × Represents 0x1000 InTwoPages (map_frames calls (λ page. 0)) m'
unfolding AreWithin
map_pages-map_frames_example =
    map_pages-map_frames 0x1000 InTwoPages 2 usable calls (λ page. 0) tables low_pages-IsSpace
      low_pages-Represents (omega arith, (omega arith, (omega arith, tt)))

abbrev first_block : Memory
first_block = (take_block 0x10000 4096 tables).1

first_block-taken : k_malloc 2 usable 4096 tables ≡ some (some 0x10008, first_block)
unfolding k_malloc b_malloc take_block read_le
first_block-taken = refl

second_entry-absent : (entry_at 0x1000 1 tables).present ≡ 0
unfolding entry_at of_word read_le
second_entry-absent = refl

ensure_entry-IsHeaderTable_example :
    (m' : Memory) × (ensure_entry 2 usable 0x1000 1 7 tables ≡ some m')
    × IsHeaderTable 0x1000 1 0x10000 m'
ensure_entry-IsHeaderTable_example =
    ensure_entry-IsHeaderTable 1 usable 0x1000 1 7 0x10000 tables first_block (omega arith)
      (omega arith) (omega arith) second_entry-absent first_block-taken refl (omega arith)
      (omega arith)

-- An address of the second entry of the directory.
second-LacksTable : LacksTable 0x1000 0x200000 0x10000 tables
unfolding next_table entry_at of_word read_le pml4_index page_directory_pointer_index
    page_directory_index
second-LacksTable = record {
  top = refl;
  second = refl;
  absent = refl;
  top_low = omega arith;
  second_low = omega arith;
  top_outside = ground arith;
  second_outside = ground arith;
  third_outside = ground arith;
  top_apart = ground arith;
  second_apart = ground arith;
}

map_page-grows_example :
    (m' : Memory) × (map_page 2 usable 0x1000 0x200000 0xabc000 2 tables ≡ some (m', 0x200000))
    × (table 0x1000 0x200000 m' ≡ 0x10000)
    × (get_physical_address 0x1000 0x200000 m' ≡ 0xabc000 / 4096 % 2 ^ 28 * 4096 + 0x200000 % 4096)
    × (2 / 2 % 2 ≡ 1 → IsMapped 0x1000 0x200000 m')
map_page-grows_example =
    map_page-grows 1 usable 0x1000 0x200000 0xabc000 2 0x10000 tables first_block (omega arith)
      (omega arith) (omega arith) second-LacksTable first_block-taken refl (omega arith)
