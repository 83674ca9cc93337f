-- ===== src/Memory/Paging/Space.antt =====
-- Sequences of calls of `mapPage` in kernel/memory/paging.c, against a map from pages to frames.
use mathlib.Core.Path.{subst, subst₂}
use native.Mathlib.Decide.{ℕ_discrete}
use maken_os.Base.{
  ℕ, ◌+◌, ◌*◌, ◌/◌, ◌%◌, ◌^◌, ◌≡◌, ◌≢◌, refl, ◌∙◌, sym, ap, arith, ◌==◌, if◌then◌else◌, Option,
  some, ◌>>=◌, List, [], ◌∷◌, Memory,
}
use maken_os.Memory.Pmm.{MemmapEntry}
use maken_os.Memory.Paging.{
  PageEntry, entry_at, pml4_index, page_directory_pointer_index, page_directory_index,
  page_table_index, get_physical_address, map_page,
}
use maken_os.Memory.Paging.Entry.{Apart, indices_as_parts}
use maken_os.Memory.Paging.Walk.{
  directory_pointer, directory, table, leaf, Avoids, IsMapped, page_entry, mapped, map_page-present,
  directory_pointer-store_entry, directory-store_entry, table-store_entry, IsMapped-store_entry,
  get_physical_address-leaf, get_physical_address-mapped, translate_same,
}

-- The arguments of a call of `mapPage`.
pub record Mapping : Type 0 where
  pub virtual_address : ℕ
  pub physical_address : ℕ
  pub flags : ℕ

-- The calls in order, on the memory.
unfoldable pub map_pages : ℕ → MemmapEntry → ℕ → List Mapping → Memory → Option Memory
map_pages fuel memmap pml4 [] m = some m
map_pages fuel memmap pml4 (c ∷ cs) m = do
  (m', flushed) ← map_page fuel memmap pml4 c.virtual_address c.physical_address c.flags m
  map_pages fuel memmap pml4 cs m'

-- The frame of each page, of 28 bits: a call changes that of one page.
abbrev pub map_frame : Mapping → (ℕ → ℕ) → ℕ → ℕ
map_frame c frames page =
    if page == c.virtual_address / 4096 then c.physical_address / 4096 % 2 ^ 28 else frames page

unfoldable pub map_frames : List Mapping → (ℕ → ℕ) → ℕ → ℕ
map_frames [] frames = frames
map_frames (c ∷ cs) frames = map_frames cs (map_frame c frames)

module _ (va va' : ℕ) (page : va / 4096 ≡ va' / 4096) where
  same_indices :
      (pml4_index va ≡ pml4_index va')
      × (page_directory_pointer_index va ≡ page_directory_pointer_index va')
      × (page_directory_index va ≡ page_directory_index va')
      × (page_table_index va ≡ page_table_index va')
  same_indices = omega (arith, indices_as_parts va, indices_as_parts va')

-- The addresses of a page have one entry.
same_leaf :
    (pml4 : ℕ) (m : Memory) (va va' : ℕ)
    → va / 4096 ≡ va' / 4096
    → (entry_at (table pml4 va m) (page_table_index va) m).physical_address
      ≡ (entry_at (table pml4 va' m) (page_table_index va') m).physical_address
same_leaf pml4 m va va' page = let i = same_indices va va' page in cc

module _ (pml4 : ℕ) (Within : ℕ → Type 0) where
  -- The addresses of a space have their tables, below 2^40, no leaf entry of one lies in the walk of another, and
  -- the leaf entries of different pages lie apart.
  pub record IsSpace (m : Memory) : Type 0 where
    pub walks : (va : ℕ) → Within va → IsMapped pml4 va m
    pub avoids : (va va' : ℕ) → Within va → Within va' → Avoids pml4 va' (leaf pml4 va m) m
    pub leaves :
        (va va' : ℕ)
        → Within va
        → Within va'
        → va / 4096 ≢ va' / 4096
        → Apart (leaf pml4 va m) (leaf pml4 va' m)

  -- The tables translate the addresses of the space as the frames say.
  abbrev pub Represents : (ℕ → ℕ) → Memory → Type 0
  Represents frames m =
      (va : ℕ) → Within va → get_physical_address pml4 va m ≡ frames (va / 4096) * 4096 + va % 4096

  unfoldable pub AreWithin : List Mapping → Type 0
  AreWithin [] = Unit
  AreWithin (c ∷ cs) = Within c.virtual_address × AreWithin cs

  -- A store into the leaf entry of an address of the space.
  module _ (va : ℕ) (m : Memory) (e : PageEntry) (within : Within va) (space : IsSpace m) where
    abbrev m' : Memory
    m' = mapped pml4 va m e

    abbrev avoided : (va' : ℕ) → Within va' → Avoids pml4 va' (leaf pml4 va m) m
    avoided va' within' = space.avoids va va' within within'

    leaf-mapped : (va' : ℕ) → Within va' → leaf pml4 va' m' ≡ leaf pml4 va' m
    leaf-mapped va' within' =
        ap (λ (t : ℕ). t + 8 * page_table_index va')
          (table-store_entry (table pml4 va m) (page_table_index va) e m pml4 va'
            (avoided va' within'))

    directory_pointer-mapped :
        (va' : ℕ) → Within va' → directory_pointer pml4 va' m' ≡ directory_pointer pml4 va' m
    directory_pointer-mapped va' within' =
        directory_pointer-store_entry (table pml4 va m) (page_table_index va) e m pml4 va'
          (avoided va' within')

    directory-mapped : (va' : ℕ) → Within va' → directory pml4 va' m' ≡ directory pml4 va' m
    directory-mapped va' within' =
        directory-store_entry (table pml4 va m) (page_table_index va) e m pml4 va'
          (avoided va' within')

    stored-Avoids : (va1 va2 : ℕ) → Within va1 → Within va2 → Avoids pml4 va2 (leaf pml4 va1 m') m'
    stored-Avoids va1 va2 within1 within2 = record {
      top =
          subst (λ (s : ℕ). Apart s (pml4 + 8 * pml4_index va2)) (sym (leaf-mapped va1 within1))
            (space.avoids va1 va2 within1 within2).top;
      second =
          subst₂ (λ (s t : ℕ). Apart s (t + 8 * page_directory_pointer_index va2))
            (sym (leaf-mapped va1 within1)) (sym (directory_pointer-mapped va2 within2))
            (space.avoids va1 va2 within1 within2).second;
      third =
          subst₂ (λ (s t : ℕ). Apart s (t + 8 * page_directory_index va2))
            (sym (leaf-mapped va1 within1)) (sym (directory-mapped va2 within2))
            (space.avoids va1 va2 within1 within2).third;
    }

    stored-IsSpace : IsSpace m'
    stored-IsSpace = record {
      walks = λ va' within'.
          IsMapped-store_entry (table pml4 va m) (page_table_index va) e m pml4 va'
            (avoided va' within') (space.walks va' within');
      avoids = stored-Avoids;
      leaves = λ va1 va2 within1 within2 other.
          subst₂ Apart (sym (leaf-mapped va1 within1)) (sym (leaf-mapped va2 within2))
            (space.leaves va1 va2 within1 within2 other);
    }

    -- An address of the same page.
    same_page :
        (va' f : ℕ)
        → va' / 4096 ≡ va / 4096
        → get_physical_address pml4 va m' ≡ f % 2 ^ 28 * 4096 + va % 4096
        → get_physical_address pml4 va' m' ≡ f % 2 ^ 28 * 4096 + va' % 4096
    same_page va' f page e =
        get_physical_address-leaf pml4 va' m'
        ∙ ap (λ (x : ℕ). x * 4096 + va' % 4096)
            (ap (λ (x : ℕ). x % 2 ^ 28) (same_leaf pml4 m' va' va page) ∙ frame)
      where
        frame :
            (entry_at (table pml4 va m') (page_table_index va) m').physical_address % 2 ^ 28
            ≡ f % 2 ^ 28
        frame = let walk = get_physical_address-leaf pml4 va m' in omega arith

    map_frame-Represents :
        (frames : ℕ → ℕ) (pa flags : ℕ)
        → Represents frames m
        → get_physical_address pml4 va m' ≡ pa / 4096 % 2 ^ 28 * 4096 + va % 4096
        → Represents
            (map_frame
              (record { virtual_address = va; physical_address = pa; flags = flags })
              frames)
            m'
    map_frame-Represents frames pa flags r new va' within' =
        elim (ℕ_discrete (va' / 4096) (va / 4096)) [
          | yes same ↦ same_page va' (pa / 4096) same new ∙ ground arith
          | no other ↦
              translate_same pml4 va m e va' (avoided va' within')
                (space.leaves va va' within within' (λ same. other (sym same)))
              ∙ r va' within'
              ∙ ground arith
        ]

-- Calls of `mapPage` on addresses of a space all succeed, the tables stay those of a space, and where
-- they translated every address of the space by a map from pages to frames, they then translate it by
-- that map changed at the page of each call to the frame that the call gives, modulo 2^28, a later
-- call of one page over an earlier.
pub map_pages-map_frames :
    (pml4 : ℕ) (Within : ℕ → Type 0) (fuel : ℕ) (memmap : MemmapEntry) (cs : List Mapping)
    (frames : ℕ → ℕ) (m : Memory)
    → IsSpace pml4 Within m
    → Represents pml4 Within frames m
    → AreWithin pml4 Within cs
    → (m' : Memory) × (map_pages fuel memmap pml4 cs m ≡ some m')
      × IsSpace pml4 Within m'
      × Represents pml4 Within (map_frames cs frames) m'
unfolding map_pages map_frames AreWithin
map_pages-map_frames pml4 Within fuel memmap [] frames m space r _ = (m, refl, space, r)
map_pages-map_frames pml4 Within fuel memmap (c ∷ cs) frames m space r (within, rest) =
    let e = page_entry pml4 c.virtual_address c.physical_address c.flags m in
    let next =
      map_pages-map_frames pml4 Within fuel memmap cs (map_frame c frames)
        (mapped pml4 c.virtual_address m e)
        (stored-IsSpace pml4 Within c.virtual_address m e within space)
        (map_frame-Represents pml4 Within c.virtual_address m e within space frames
          c.physical_address c.flags r
          (get_physical_address-mapped pml4 c.virtual_address c.physical_address c.flags m
            (space.avoids _ _ within within)))
        rest in
    (
      next.0,
      rw
          (map_page-present fuel memmap pml4 c.virtual_address c.physical_address c.flags m
            (space.walks _ within))
          (next.1),
      next.2,
      next.3,
    )
