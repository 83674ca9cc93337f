-- ===== src/Memory/Pmm.antt =====
-- kernel/memory/pmm.c: the allocator over physical memory, and the boot loader's memory map.
-- A pointer is a byte address; `uint64_t* p`, `p + k` is `p + 8 * k`. `size_t` arithmetic wraps.
pub mod Blocks
pub mod Faults
mod Tests
use Prim.Native.String.{String}
use maken_os.Base.{
  ℕ, zero, suc, ◌+◌, ◌-◌, ◌*◌, ◌/◌, ◌%◌, ◌^◌, ◌&&◌, ◌||◌, List, [], ◌∷◌, ◌++◌, Option, none, some,
  ◌>>=◌, leb, ltb, ◌==◌, if◌then◌else◌, get_elem?, Memory, read_le, write_le,
}
use maken_os.Klib.Mem.{memset}

-- `struct limine_memmap_entry` of the boot loader.
pub record MemmapEntry : Type 0 where
  pub base : ℕ
  pub length : ℕ
  pub kind : ℕ

-- The number of a pointer, 0 for NULL.
abbrev pub address_of : Option ℕ → ℕ
address_of none = 0
address_of (some p) = p

abbrev pub block_size : ℕ
block_size = 4096

-- `size + 1` as a `size_t`.
abbrev pub size_suc : ℕ → ℕ
size_suc size = (size + 1) % 2 ^ 64

-- `*base = size; memset(base + 1, 0, sizeof(void*) * size); return base + 1;`
unfoldable pub take_block : ℕ → ℕ → Memory → Option ℕ × Memory
take_block base size m =
    (some (base + 8), memset (base + 8) 0 (8 * size % 2 ^ 64) (write_le 8 m base size))

-- The outer option is the fuel; the inner one is the pointer, `none` for NULL.
unfoldable pub b_malloc : ℕ → ℕ → ℕ → ℕ → Memory → Option (Option ℕ × Memory)
b_malloc zero base length size m = none
b_malloc (suc fuel) base length size m =
    let half = length / 2 in
    let left = b_malloc fuel base half size m in
    let search : Option (Option ℕ × Memory) = (do
      (b, m') ← left
      elim b [
        | none ↦ b_malloc fuel (base + 8 * half) half size m'
        | some p ↦ some (some p, m')
      ]) in
    if leb length block_size
    then (if leb (size_suc size) length && read_le 8 m base == 0
        then some (take_block base size m)
        else some (none, m))
    else if leb half (size_suc size) && read_le 8 m base == 0
    then some (take_block base size m)
    else if ltb size half
    then search
    else some (none, m)

-- `memmap` is the entry that `setMemoryMap` chose.
unfoldable pub k_malloc : ℕ → MemmapEntry → ℕ → Memory → Option (Option ℕ × Memory)
k_malloc fuel memmap size m = b_malloc fuel memmap.base memmap.length size m

unfoldable pub k_free : ℕ → Memory → Memory
k_free base m = let size = read_le 8 m (base - 8) in memset base 0 size m

-- `none` is a read behind the boot loader's entries; `selection` is a `uint8_t`.
unfoldable pub set_memory_map : List MemmapEntry → ℕ → Option MemmapEntry
set_memory_map entries selection = get_elem? entries (selection % 256)

unfoldable pub get_memory_map_type : ℕ → String
get_memory_map_type kind =
    if kind == 1
    then "Usable RAM"
    else if kind == 2
    then "Reserved"
    else if kind == 3
    then "ACPI reclaimable"
    else if kind == 4
    then "ACPI NVS"
    else if kind == 5
    then "Bad memory"
    else if kind == 0x1000
    then "Bootloader reclaimable"
    else if kind == 0x1001
    then "Kernel/Modules"
    else if kind == 0x1002
    then "Framebuffer"
    else "???"

-- What goes to the terminal: a text, or a number that `printNumber` prints with a line end.
pub data Output : Type 0 where
  text : String → Output
  number : ℕ → Output

memory_map_lines : ℕ → MemmapEntry → List Output
memory_map_lines i entry =
    if entry.kind == 1 || entry.kind == 0x1000 || entry.kind == 3
    then text "Entry "
      ∷ number i
      ∷ text (get_memory_map_type entry.kind)
      ∷ text "\nBase "
      ∷ number entry.base
      ∷ text "Length "
      ∷ number entry.length
      ∷ []
    else []

print_from : ℕ → List MemmapEntry → List Output
print_from i [] = []
print_from i (entry ∷ entries) = memory_map_lines i entry ++ print_from (i + 1) entries

unfoldable pub print_memory_maps : List MemmapEntry → List Output
unfolding print_from memory_map_lines get_memory_map_type
print_memory_maps entries = print_from 0 entries
