-- ===== src/Memory/Paging/Walk.antt =====
-- `mapPage` and `getPhysicalAddress` of kernel/memory/paging.c agree: what is mapped is found again.
use mathlib.Core.Path.{subst}
use maken_os.Base.{
  ◌<◌, arith, ℕ, ◌+◌, ◌*◌, ◌/◌, ◌%◌, ◌^◌, ◌≡◌, refl, ◌∙◌, sym, ap, some, ◌>>>◌, ◌<<<◌, Memory,
  SameOutside,
}
use maken_os.Memory.Pmm.{MemmapEntry}
use maken_os.Memory.Paging.{
  frame_address, PageEntry, entry_at, store_entry, set_page_table_entry, pml4_index,
  page_directory_pointer_index, page_directory_index, page_table_index, next_table,
  get_physical_address, ensure_entry, map_page,
}
use maken_os.Memory.Paging.Entry.{
  frame_address-low, Assigned, set_page_table_entry-Assigned, set_page_table_entry-IsEntry,
  entry_at-IsEntry, entry_at-store_entry, Apart, store_entry-SameOutside, entry_at-store_entry_ne,
  indices_as_parts,
}

-- The tables that the walk of `getPhysicalAddress` for `va` goes through, from the one at `pml4`.
module _ (pml4 va : ℕ) (m : Memory) where
  abbrev pub directory_pointer : ℕ
  directory_pointer = next_table pml4 (pml4_index va) m

  abbrev pub directory : ℕ
  directory = next_table directory_pointer (page_directory_pointer_index va) m

  abbrev pub table : ℕ
  table = next_table directory (page_directory_index va) m

  -- Where the entry of the page itself stands.
  abbrev pub leaf : ℕ
  leaf = table + 8 * page_table_index va

-- None of the four entries of the walk for `va` overlaps the slot at `s`; the last one may.
pub record Avoids (pml4 va s : ℕ) (m : Memory) : Type 0 where
  pub top : Apart s (pml4 + 8 * pml4_index va)
  pub second : Apart s (directory_pointer pml4 va m + 8 * page_directory_pointer_index va)
  pub third : Apart s (directory pml4 va m + 8 * page_directory_index va)

-- The three upper entries of the walk for `va` are present, and the tables that they name start
-- below 2^40.
pub record IsMapped (pml4 va : ℕ) (m : Memory) : Type 0 where
  pub top : (entry_at pml4 (pml4_index va) m).present ≡ 1
  pub second :
      (entry_at (directory_pointer pml4 va m) (page_directory_pointer_index va) m).present ≡ 1
  pub third : (entry_at (directory pml4 va m) (page_directory_index va) m).present ≡ 1
  pub top_low : directory_pointer pml4 va m < 2 ^ 40
  pub second_low : directory pml4 va m < 2 ^ 40
  pub third_low : table pml4 va m < 2 ^ 40

module _ (t0 i : ℕ) (e : PageEntry) (m : Memory) where
  abbrev stored : Memory
  stored = store_entry t0 i e m

  next_table-store_entry_ne :
      (t' i' : ℕ) → Apart (t0 + 8 * i) (t' + 8 * i') → next_table t' i' stored ≡ next_table t' i' m
  unfolding next_table
  next_table-store_entry_ne t' i' apart =
      ap (λ (x : PageEntry). x.physical_address <<< 12)
        (entry_at-store_entry_ne t0 i t' i' e m apart)

  -- The tables of a walk that avoids the slot.
  module _ (pml4 va : ℕ) (a : Avoids pml4 va (t0 + 8 * i) m) where
    pub directory_pointer-store_entry :
        directory_pointer pml4 va stored ≡ directory_pointer pml4 va m
    directory_pointer-store_entry = next_table-store_entry_ne pml4 (pml4_index va) a.top

    pub directory-store_entry : directory pml4 va stored ≡ directory pml4 va m
    directory-store_entry =
        ap (λ (x : ℕ). next_table x (page_directory_pointer_index va) stored)
          directory_pointer-store_entry
        ∙ next_table-store_entry_ne _ (page_directory_pointer_index va) a.second

    pub table-store_entry : table pml4 va stored ≡ table pml4 va m
    table-store_entry =
        ap (λ (x : ℕ). next_table x (page_directory_index va) stored) directory-store_entry
        ∙ next_table-store_entry_ne _ (page_directory_index va) a.third

    present-store_entry :
        (t t' j : ℕ)
        → t' ≡ t
        → Apart (t0 + 8 * i) (t + 8 * j)
        → (entry_at t j m).present ≡ 1
        → (entry_at t' j stored).present ≡ 1
    present-store_entry t t' j same apart present =
        ap (λ (x : ℕ). (entry_at x j stored).present) same
        ∙ ap (λ (x : PageEntry). x.present) (entry_at-store_entry_ne t0 i t j e m apart)
        ∙ present

    pub IsMapped-store_entry : IsMapped pml4 va m → IsMapped pml4 va stored
    IsMapped-store_entry v = record {
      top = present-store_entry pml4 pml4 (pml4_index va) refl a.top v.top;
      second =
          present-store_entry _ _ (page_directory_pointer_index va) directory_pointer-store_entry
            a.second v.second;
      third =
          present-store_entry _ _ (page_directory_index va) directory-store_entry a.third v.third;
      top_low = subst (λ (t : ℕ). t < 2 ^ 40) (sym directory_pointer-store_entry) v.top_low;
      second_low = subst (λ (t : ℕ). t < 2 ^ 40) (sym directory-store_entry) v.second_low;
      third_low = subst (λ (t : ℕ). t < 2 ^ 40) (sym table-store_entry) v.third_low;
    }

pub ensure_entry-present :
    (fuel : ℕ) (memmap : MemmapEntry) (t i flags : ℕ) (m : Memory)
    → (entry_at t i m).present ≡ 1
    → ensure_entry fuel memmap t i flags m ≡ some m
unfolding ensure_entry
ensure_entry-present fuel memmap t i flags m e = rw e

-- The new entry of the page.
abbrev pub page_entry : ℕ → ℕ → ℕ → ℕ → Memory → PageEntry
page_entry pml4 va pa flags m =
    set_page_table_entry (entry_at (table pml4 va m) (page_table_index va) m) flags (pa >>> 12) 0

pub map_page-present :
    (fuel : ℕ) (memmap : MemmapEntry) (pml4 va pa flags : ℕ) (m : Memory)
    → IsMapped pml4 va m
    → map_page fuel memmap pml4 va pa flags m
      ≡ some (
        store_entry (table pml4 va m) (page_table_index va) (page_entry pml4 va pa flags m) m,
        va,
      )
unfolding map_page
map_page-present fuel memmap pml4 va pa flags m v = simp (
  ensure_entry-present fuel memmap pml4 (pml4_index va) flags m v.top,
  frame_address-low pml4 (pml4_index va) m v.top_low,
  frame_address-low (directory_pointer pml4 va m) (page_directory_pointer_index va) m v.second_low,
  frame_address-low (directory pml4 va m) (page_directory_index va) m v.third_low,
  ensure_entry-present fuel memmap (directory_pointer pml4 va m) (page_directory_pointer_index va)
      flags m v.second,
  ensure_entry-present fuel memmap (directory pml4 va m) (page_directory_index va) flags m v.third,
)

pub get_physical_address-leaf :
    (pml4 va : ℕ) (m : Memory)
    → get_physical_address pml4 va m
      ≡ (entry_at (table pml4 va m) (page_table_index va) m).physical_address % 2 ^ 28 * 4096
        + va % 4096
unfolding get_physical_address next_table frame_address
get_physical_address-leaf pml4 va m = omega (arith, (indices_as_parts va).4)

module _ (pml4 va : ℕ) (m : Memory) (e : PageEntry) where
  abbrev pub mapped : Memory
  mapped = store_entry (table pml4 va m) (page_table_index va) e m

  pub translate_same :
      (va' : ℕ)
      → Avoids pml4 va' (leaf pml4 va m) m
      → Apart (leaf pml4 va m) (leaf pml4 va' m)
      → get_physical_address pml4 va' mapped ≡ get_physical_address pml4 va' m
  translate_same va' a apart =
      get_physical_address-leaf pml4 va' mapped
      ∙ ap (λ (x : PageEntry). x.physical_address % 2 ^ 28 * 4096 + va' % 4096) same_entry
      ∙ sym (get_physical_address-leaf pml4 va' m)
    where
      same_entry :
          entry_at (table pml4 va' mapped) (page_table_index va') mapped
          ≡ entry_at (table pml4 va' m) (page_table_index va') m
      same_entry =
          ap (λ (t : ℕ). entry_at t (page_table_index va') mapped)
            (table-store_entry (table pml4 va m) (page_table_index va) e m pml4 va' a)
          ∙ entry_at-store_entry_ne _ _ _ (page_table_index va') e m apart

module _ (pml4 va pa flags : ℕ) (m : Memory) where
  abbrev e : PageEntry
  e = page_entry pml4 va pa flags m

  stored_entry : entry_at (table pml4 va m) (page_table_index va) (mapped pml4 va m e) ≡ e
  stored_entry = entry_at-store_entry (table pml4 va m) (page_table_index va) e m (
      set_page_table_entry-IsEntry (entry_at (table pml4 va m) (page_table_index va) m) flags
        (pa >>> 12) 0 (entry_at-IsEntry (table pml4 va m) (page_table_index va) m))

  pub get_physical_address-mapped :
      Avoids pml4 va (leaf pml4 va m) m
      → get_physical_address pml4 va (mapped pml4 va m e) ≡ pa / 4096 % 2 ^ 28 * 4096 + va % 4096
  unfolding set_page_table_entry
  get_physical_address-mapped a =
      get_physical_address-leaf pml4 va (mapped pml4 va m e)
      ∙ ap (λ (x : PageEntry). x.physical_address % 2 ^ 28 * 4096 + va % 4096)
          (ap (λ (t : ℕ). entry_at t (page_table_index va) (mapped pml4 va m e))
              (table-store_entry (table pml4 va m) (page_table_index va) e m pml4 va a)
            ∙ stored_entry)
      ∙ omega arith

-- Where the three upper entries of its walk are present, name tables below 2^40 and do not overlap the
-- entry of the page, `mapPage` maps the page: the address then translates to its offset in the
-- physical page, whose address is taken modulo 2^40, the entry has the rights of the flags, an address whose walk avoids that entry translates as
-- before, and nothing else in memory has changed.
pub get_physical_address-map_page :
    (fuel : ℕ) (memmap : MemmapEntry) (pml4 va pa flags : ℕ) (m : Memory)
    → IsMapped pml4 va m
    → Avoids pml4 va (leaf pml4 va m) m
    → (m' : Memory) × (map_page fuel memmap pml4 va pa flags m ≡ some (m', va))
      × (get_physical_address pml4 va m' ≡ pa / 4096 % 2 ^ 28 * 4096 + va % 4096)
      × Assigned
          (entry_at (table pml4 va m) (page_table_index va) m)
          flags
          (pa / 4096)
          0
          (entry_at (table pml4 va m) (page_table_index va) m')
      × ((va' : ℕ)
          → Avoids pml4 va' (leaf pml4 va m) m
          → Apart (leaf pml4 va m) (leaf pml4 va' m)
          → get_physical_address pml4 va' m' ≡ get_physical_address pml4 va' m)
      × SameOutside (leaf pml4 va m) 8 m m'
get_physical_address-map_page fuel memmap pml4 va pa flags m v a = (
  mapped pml4 va m (page_entry pml4 va pa flags m),
  map_page-present fuel memmap pml4 va pa flags m v,
  get_physical_address-mapped pml4 va pa flags m a,
  subst (Assigned old flags (pa / 4096) 0) (sym (stored_entry pml4 va pa flags m))
      (set_page_table_entry-Assigned old flags (pa >>> 12) 0),
  translate_same pml4 va m (page_entry pml4 va pa flags m),
  store_entry-SameOutside (table pml4 va m) (page_table_index va) (page_entry pml4 va pa flags m) m,
)
  where
    old : PageEntry
    old = entry_at (table pml4 va m) (page_table_index va) m
