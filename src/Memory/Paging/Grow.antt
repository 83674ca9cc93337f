-- ===== src/Memory/Paging/Grow.antt =====
-- `mapPage` of kernel/memory/paging.c on an address whose page table does not exist yet: it takes a
-- block from `k_malloc` of kernel/memory/pmm.c for it.
use maken_os.Base.{
  ℕ, suc, ◌+◌, ◌*◌, ◌/◌, ◌%◌, ◌^◌, ◌≤◌, ◌<◌, ◌≡◌, refl, ◌∙◌, sym, ap, arith, some, ◌⊎◌, ◌>>>◌,
  ◌<<<◌, Memory, read_le_ext,
}
use maken_os.Memory.Pmm.{MemmapEntry, block_size, k_malloc}
use maken_os.Memory.Pmm.Blocks.{Allocated, k_malloc-Allocated}
use maken_os.Memory.Paging.{
  PageEntry, of_word, entry_at, store_entry, set_page_table_entry, pml4_index,
  page_directory_pointer_index, page_directory_index, page_table_index, next_table, frame_address,
  get_physical_address, map_page,
}
use mathlib.Core.Path.{subst}
use maken_os.Memory.Paging.Entry.{
  frame_address-low, Apart, entry_at-store_entry_ne, indices_as_parts,
}
use maken_os.Memory.Paging.Walk.{
  directory_pointer, directory, table, leaf, Avoids, IsMapped, page_entry, mapped,
  get_physical_address-mapped, ensure_entry-present, table-store_entry, IsMapped-store_entry,
}
use maken_os.Memory.Paging.Fresh.{ensure_entry-absent, after, after-names, after-present}

-- The slot at `s` lies outside the words of the block behind `p`, its header included.
abbrev pub Outside : ℕ → ℕ → Type 0
Outside p s = (s + 8 ≤ p) ⊎ (p + 8 + 8 * 4096 ≤ s)

-- The two upper entries of the walk are present, with tables below 2^40, and the third is not; none of the three lies in the
-- block, and the third overlaps neither of the others.
pub record LacksTable (pml4 va p : ℕ) (m : Memory) : Type 0 where
  pub top : (entry_at pml4 (pml4_index va) m).present ≡ 1
  pub second :
      (entry_at (directory_pointer pml4 va m) (page_directory_pointer_index va) m).present ≡ 1
  pub absent : (entry_at (directory pml4 va m) (page_directory_index va) m).present ≡ 0
  pub top_low : directory_pointer pml4 va m < 2 ^ 40
  pub second_low : directory pml4 va m < 2 ^ 40
  pub top_outside : Outside p (pml4 + 8 * pml4_index va)
  pub second_outside : Outside p (directory_pointer pml4 va m + 8 * page_directory_pointer_index va)
  pub third_outside : Outside p (directory pml4 va m + 8 * page_directory_index va)
  pub top_apart :
      Apart (directory pml4 va m + 8 * page_directory_index va) (pml4 + 8 * pml4_index va)
  pub second_apart :
      Apart
        (directory pml4 va m + 8 * page_directory_index va)
        (directory_pointer pml4 va m + 8 * page_directory_pointer_index va)

module _ (pml4 va pa flags p length base : ℕ) (m m1 : Memory) (lacks : LacksTable pml4 va p m)
    (aligned : p % 4096 ≡ 0) (low : p < 2 ^ 40)
    (taken : Allocated base length 4096 m (p + 8) m1) where
  abbrev d : ℕ
  d = directory pml4 va m

  abbrev m2 : Memory
  m2 =
      after d (page_directory_index va) flags p length base m m1 aligned low taken
        lacks.third_outside

  -- The new table does not show in an entry outside it.
  entry_at-m1 : (t i : ℕ) → Outside p (t + 8 * i) → entry_at t i m1 ≡ entry_at t i m
  unfolding entry_at
  entry_at-m1 t i out =
      ap of_word (read_le_ext 8 m m1 (t + 8 * i) λ b lo hi. taken.same b (ground arith))

  entry_at-m2 :
      (t i : ℕ)
      → Outside p (t + 8 * i)
      → Apart (d + 8 * page_directory_index va) (t + 8 * i)
      → entry_at t i m2 ≡ entry_at t i m
  entry_at-m2 t i out apart =
      entry_at-store_entry_ne d (page_directory_index va) t i _ m1 apart ∙ entry_at-m1 t i out

  directory_pointer-m2 : directory_pointer pml4 va m2 ≡ directory_pointer pml4 va m
  unfolding next_table
  directory_pointer-m2 =
      ap (λ (x : PageEntry). x.physical_address <<< 12)
        (entry_at-m2 pml4 (pml4_index va) lacks.top_outside lacks.top_apart)

  directory-m2 : directory pml4 va m2 ≡ d
  unfolding next_table
  directory-m2 =
      ap (λ (x : ℕ). next_table x (page_directory_pointer_index va) m2) directory_pointer-m2
      ∙ ap (λ (x : PageEntry). x.physical_address <<< 12)
          (entry_at-m2 _ (page_directory_pointer_index va) lacks.second_outside lacks.second_apart)

  table-m2 : table pml4 va m2 ≡ p
  table-m2 =
      ap (λ (x : ℕ). next_table x (page_directory_index va) m2) directory-m2
      ∙ after-names d (page_directory_index va) flags p length base m m1 aligned low taken
          lacks.third_outside

  -- An entry of the new table lies apart from what lies outside the block.
  in_block : (t s s' : ℕ) → t ≡ p → s' ≡ s → Outside p s → Apart (t + 8 * page_table_index va) s'
  in_block t s s' at same out = let index = (indices_as_parts va).3 in omega arith

  leaf-Avoids : Avoids pml4 va (leaf pml4 va m2) m2
  leaf-Avoids = record {
    top = in_block _ _ _ table-m2 refl lacks.top_outside;
    second =
        in_block _ _ _ table-m2
          (ap (λ (x : ℕ). x + 8 * page_directory_pointer_index va) directory_pointer-m2)
          lacks.second_outside;
    third =
        in_block _ _ _ table-m2 (ap (λ (x : ℕ). x + 8 * page_directory_index va) directory-m2)
          lacks.third_outside;
  }

  grown-IsMapped : flags / 2 % 2 ≡ 1 → IsMapped pml4 va m2
  grown-IsMapped usable = record {
    top =
        ap (λ (x : PageEntry). x.present)
          (entry_at-m2 pml4 (pml4_index va) lacks.top_outside lacks.top_apart)
        ∙ lacks.top;
    second =
        ap (λ (x : ℕ). (entry_at x (page_directory_pointer_index va) m2).present)
          directory_pointer-m2
        ∙ ap (λ (x : PageEntry). x.present)
            (entry_at-m2 _ (page_directory_pointer_index va) lacks.second_outside
              lacks.second_apart)
        ∙ lacks.second;
    third =
        ap (λ (x : ℕ). (entry_at x (page_directory_index va) m2).present) directory-m2
        ∙ after-present d (page_directory_index va) flags p length base m m1 aligned low taken
            lacks.third_outside
        ∙ usable;
    top_low = subst (λ (t : ℕ). t < 2 ^ 40) (sym directory_pointer-m2) lacks.top_low;
    second_low = subst (λ (t : ℕ). t < 2 ^ 40) (sym directory-m2) lacks.second_low;
    third_low = subst (λ (t : ℕ). t < 2 ^ 40) (sym table-m2) low;
  }

  abbrev m3 : Memory
  m3 = mapped pml4 va m2 (page_entry pml4 va pa flags m2)

  -- What `mapPage` stores in the page table at `t`.
  abbrev stored_in : ℕ → Memory
  stored_in t =
      store_entry t (page_table_index va)
        (set_page_table_entry (entry_at t (page_table_index va) m2) flags (pa >>> 12) 0) m2

  map_page-stored :
      (fuel : ℕ) (memmap : MemmapEntry)
      → k_malloc fuel memmap 4096 m ≡ some (some (p + 8), m1)
      → map_page fuel memmap pml4 va pa flags m
        ≡ some (stored_in (frame_address d (page_directory_index va) m2), va)
  unfolding map_page
  map_page-stored fuel memmap runs = simp (
    ensure_entry-present fuel memmap pml4 (pml4_index va) flags m lacks.top,
    ensure_entry-present fuel memmap (directory_pointer pml4 va m) (page_directory_pointer_index va)
        flags m lacks.second,
    ensure_entry-absent fuel memmap d (page_directory_index va) flags (p + 8) m m1 lacks.absent
        runs,
    frame_address-low pml4 (pml4_index va) m lacks.top_low,
    frame_address-low (directory_pointer pml4 va m) (page_directory_pointer_index va) m
        lacks.second_low,
  )

  map_page-m3 :
      (fuel : ℕ) (memmap : MemmapEntry)
      → k_malloc fuel memmap 4096 m ≡ some (some (p + 8), m1)
      → map_page fuel memmap pml4 va pa flags m ≡ some (m3, va)
  map_page-m3 fuel memmap runs =
      map_page-stored fuel memmap runs
      ∙ ap (λ (x : ℕ). some (stored_in x, va))
          (frame_address-low d (page_directory_index va) m2 (
            subst (λ (t : ℕ). t < 2 ^ 40)
              (sym (
                ap (λ (x : ℕ). next_table x (page_directory_index va) m2) (sym directory-m2)
                ∙ table-m2))
              low))
      ∙ ap (λ (x : ℕ). some (stored_in (next_table x (page_directory_index va) m2), va))
          (sym directory-m2)

-- In an entry of more than 4096 words, of a length below 2^60 and with fuel for one halving more than
-- lead down to a block: where the two upper entries of the walk are present and name tables below
-- 2^40, and the third is not present, `mapPage` takes a block for its table, and where that block is
-- one word behind the start `p` of a page below 2^40, with the block apart from the three entries and
-- the third entry apart from the others, the page is mapped in the table at `p`: the address then
-- translates to its offset in the physical page, whose address is taken modulo 2^40, and with the flag
-- for present its tables are all there for later calls.
pub map_page-grows :
    (halvings : ℕ) (memmap : MemmapEntry) (pml4 va pa flags p : ℕ) (m m1 : Memory)
    → 4096 < memmap.length
    → memmap.length < 2 ^ 60
    → memmap.length ≤ block_size * 2 ^ halvings
    → LacksTable pml4 va p m
    → k_malloc (suc halvings) memmap 4096 m ≡ some (some (p + 8), m1)
    → p % 4096 ≡ 0
    → p < 2 ^ 40
    → (m' : Memory) × (map_page (suc halvings) memmap pml4 va pa flags m ≡ some (m', va))
      × (table pml4 va m' ≡ p)
      × (get_physical_address pml4 va m' ≡ pa / 4096 % 2 ^ 28 * 4096 + va % 4096)
      × (flags / 2 % 2 ≡ 1 → IsMapped pml4 va m')
map_page-grows halvings memmap pml4 va pa flags p m m1 fits small enough lacks runs aligned low = (
  m3 pml4 va pa flags p memmap.length memmap.base m m1 lacks aligned low taken,
  map_page-m3 pml4 va pa flags p memmap.length memmap.base m m1 lacks aligned low taken
      (suc halvings) memmap runs,
  table-store_entry _ _ _ _ pml4 va avoids
      ∙ table-m2 pml4 va pa flags p memmap.length memmap.base m m1 lacks aligned low taken,
  get_physical_address-mapped pml4 va pa flags _ avoids,
  λ usable. IsMapped-store_entry _ _ _ _ pml4 va avoids (
      grown-IsMapped pml4 va pa flags p memmap.length memmap.base m m1 lacks aligned low taken
        usable),
)
  where
    taken : Allocated memmap.base memmap.length 4096 m (p + 8) m1
    taken = k_malloc-Allocated halvings 4096 (p + 8) memmap m m1 (omega arith) small enough runs

    grown : Memory
    grown = m2 pml4 va pa flags p memmap.length memmap.base m m1 lacks aligned low taken

    avoids : Avoids pml4 va (leaf pml4 va grown) grown
    avoids = leaf-Avoids pml4 va pa flags p memmap.length memmap.base m m1 lacks aligned low taken
