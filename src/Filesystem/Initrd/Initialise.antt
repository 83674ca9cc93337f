-- ===== src/Filesystem/Initrd/Initialise.antt =====
-- `initialise_initrd` of kernel/filesystem/initrd.c on an image whose headers hold terminated names.
use mathlib.Core.Path.{subst}
use maken_os.Base.{
  ℕ, suc, ◌+◌, ◌*◌, ◌%◌, ◌^◌, ◌≤◌, ◌<◌, ◌≡◌, eq_of_some, ◌∙◌, sym, ap, arith, ◌⊎◌, Option, none,
  some, length, Memory, IsBytes, read_le, read_le_ext,
}
use maken_os.Memory.Pmm.{MemmapEntry, block_size, k_malloc}
use maken_os.Memory.Pmm.Blocks.{Served, k_malloc-Ends}
use maken_os.Filesystem.Initrd.{Initrd, initialise_initrd}
use maken_os.Filesystem.Initrd.Mount.{IsImage, IsMounted, finish-IsMounted}

Served-same :
    (base length size : ℕ) (m : Memory) (r : Option ℕ) (m' : Memory)
    → Served base length size m (r, m')
    → (IsBytes m → IsBytes m') × ((b : ℕ) → (b < base) ⊎ (base + 8 * length ≤ b) → m' b ≡ m b)
Served-same base length size m none m' same =
    (subst IsBytes (sym same), λ b out. ap (λ (t : Memory). t b) same)
Served-same base length size m (some p) m' block =
    (block.small, λ b out. block.same b (omega (arith, block.after, block.before)))

-- A call of `k_malloc` that ran out neither of fuel nor of room.
k_malloc-Served :
    (halvings size : ℕ) (memmap : MemmapEntry) (m : Memory) (r : Option ℕ × Memory)
    → size + 1 ≤ memmap.length
    → memmap.length < 2 ^ 60
    → memmap.length ≤ block_size * 2 ^ halvings
    → k_malloc (suc halvings) memmap size m ≡ some r
    → Served memmap.base memmap.length size m r
k_malloc-Served halvings size memmap m r room fits covered e =
    let ends = k_malloc-Ends halvings size memmap m room fits covered in
    subst (Served memmap.base memmap.length size m) (eq_of_some (sym ends.1 ∙ e)) ends.2

-- Outside the entry of the allocator and the headers nothing has changed.
abbrev pub SameBeyond : MemmapEntry → ℕ → ℕ → Memory → Memory → Type 0
SameBeyond memmap location n m m' =
    (b : ℕ)
    → (b < memmap.base) ⊎ (memmap.base + 8 * memmap.length ≤ b)
    → (b < location + 8) ⊎ (location + 8 + 88 * n ≤ b)
    → m' b ≡ m b

-- What the two allocations leave: the image, bytes, and clear entries apart from the image.
allocated :
    (halvings : ℕ) (memmap : MemmapEntry) (location n : ℕ) (r : Option ℕ) (p : ℕ) (m m1 m2 : Memory)
    → IsBytes m
    → 132 * (n + 2) + 1 ≤ memmap.length
    → memmap.length < 2 ^ 60
    → memmap.length ≤ block_size * 2 ^ halvings
    → (location + 8 + 88 * n ≤ memmap.base) ⊎ (memmap.base + 8 * memmap.length ≤ location)
    → k_malloc (suc halvings) memmap (88 * (n + 2)) m ≡ some (r, m1)
    → k_malloc (suc halvings) memmap (132 * (n + 2)) m1 ≡ some (some p, m2)
    → ((b : ℕ) → location ≤ b → b < location + 8 + 88 * n → m1 b ≡ m b)
      × ((b : ℕ) → location ≤ b → b < location + 8 + 88 * n → m2 b ≡ m b)
      × IsBytes m2
      × ((b : ℕ) → p ≤ b → b < p + 132 * (n + 2) → m2 b ≡ 0)
      × ((p + 132 * (n + 2) ≤ location) ⊎ (location + 8 + 88 * n ≤ p))
      × ((b : ℕ) → (b < memmap.base) ⊎ (memmap.base + 8 * memmap.length ≤ b) → m2 b ≡ m b)
      × (memmap.base ≤ p)
      × (p + 132 * (n + 2) ≤ memmap.base + 8 * memmap.length)
allocated halvings memmap location n r p m m1 m2 small room fits covered apart first second =
    let nodes_served =
      k_malloc-Served halvings (88 * (n + 2)) memmap m (r, m1) (omega arith) fits covered first in
    let block =
      k_malloc-Served halvings (132 * (n + 2)) memmap m1 (some p, m2) room fits covered second in
    let kept1 = Served-same memmap.base memmap.length (88 * (n + 2)) m r m1 nodes_served in
    let kept2 = Served-same memmap.base memmap.length (132 * (n + 2)) m1 (some p) m2 block in
    (
      λ b lo hi. kept1.1 b (omega (arith, apart)),
      λ b lo hi. kept2.1 b (omega (arith, apart)) ∙ kept1.1 b (omega (arith, apart)),
      kept2.0 (kept1.0 small),
      λ b lo hi. block.zeroed b lo (omega arith),
      omega (arith, apart, block.after, block.before),
      λ b out. kept2.1 b out ∙ kept1.1 b out,
      omega (arith, block.after),
      omega (arith, block.before),
    )

-- Where the headers of an image hold terminated names of less than 64 bytes, which the fuel covers,
-- the entry that `k_malloc` serves lies apart from it, has room for the directory, a length below
-- 2^60 and halvings that the fuel covers, and the second allocation gives a block,
-- `initialise_initrd` ends: the root directory has the names "/", "dev" and those of the headers, in
-- order, each header has its offset moved by the address of the image, and the nodes are two
-- directories and one file for each header. Outside the entry and the headers nothing changes.
pub initialise_initrd-IsMounted :
    (halvings : ℕ) (memmap : MemmapEntry) (location n : ℕ) (len : ℕ → ℕ) (r : Option ℕ) (p : ℕ)
    (m m1 m2 : Memory)
    → IsBytes m
    → IsImage location n len m
    → ((k : ℕ) → k < n → len k < suc halvings)
    → 132 * (n + 2) + 1 ≤ memmap.length
    → memmap.length < 2 ^ 60
    → memmap.length ≤ block_size * 2 ^ halvings
    → (location + 8 + 88 * n ≤ memmap.base) ⊎ (memmap.base + 8 * memmap.length ≤ location)
    → k_malloc (suc halvings) memmap (88 * (n + 2)) m ≡ some (r, m1)
    → k_malloc (suc halvings) memmap (132 * (n + 2)) m1 ≡ some (some p, m2)
    → (disk : Initrd) × (m' : Memory) × (initialise_initrd (suc halvings) memmap location m
        ≡ some (disk, m'))
      × (disk.root_dirents ≡ p)
      × IsMounted location n len m disk m'
      × SameBeyond memmap location n m m'
unfolding initialise_initrd
initialise_initrd-IsMounted halvings memmap location n len r p m m1 m2 small image enough room fits
      covered apart first second =
    let (same1, same, small2, clear, regions, beyond, low, high) =
      allocated halvings memmap location n r p m m1 m2 small room fits covered apart first second in
    let (disk, m', runs, at, is_mounted, kept) =
      finish-IsMounted (suc halvings) location n p len m m2 enough image same small2 clear regions
        (omega arith) in
    let count1 : read_le 8 m1 location ≡ n =
      read_le_ext 8 m m1 location (λ b lo hi. same1 b lo (omega arith)) ∙ image.count in
    let nodes_bytes : 88 * (read_le 8 m location + 2) % 2 ^ 64 ≡ 88 * (n + 2) =
      omega (arith, image.count) in
    let entries_bytes : 132 * (read_le 8 m1 location + 2) % 2 ^ 64 ≡ 132 * (n + 2) =
      omega (arith, count1) in
    (
      disk,
      m',
      rw (nodes_bytes, first, entries_bytes, second) runs,
      at,
      is_mounted,
      λ b out out_headers. kept b (omega (arith, out, low, high)) out_headers ∙ beyond b out,
    )
