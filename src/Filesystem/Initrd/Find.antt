-- ===== src/Filesystem/Initrd/Find.antt =====
-- `initrd_readdir` and `initrd_finddir` of kernel/filesystem/initrd.c on terminated names.
use mathlib.Core.Bool.{false≢true}
use maken_os.Base.First.{First, nowhere, here, later, First-eq}
use maken_os.Base.{
  ℕ, zero, suc, ◌+◌, ◌<◌, ◌≡◌, refl, ◌∙◌, ap, sym, arith, inl, inr, some, none, Option, Bool-cases,
  ◌>>=◌, get_elem?, Memory, IsBytes, is_zero,
}
use maken_os.Klib.Str.Laws.{IsString, SameStrings, strcmp-zero_iff}
use maken_os.Filesystem.Initrd.{Initrd, dirent_at, finddir_from, initrd_finddir, initrd_readdir}

-- Each directory entry from `i` on holds a terminated name, of the length that `size` gives.
abbrev pub AreNamed : (ℕ → ℕ) → ℕ → ℕ → Memory → Type 0
AreNamed size root_dirents count m =
    (i : ℕ) → i < count → IsString m (dirent_at root_dirents i) (size i)

-- Entry `i` has the name at `name`.
abbrev pub HasName : (ℕ → ℕ) → ℕ → ℕ → ℕ → Memory → ℕ → Type 0
HasName size root_dirents name n m i = SameStrings name n (dirent_at root_dirents i) (size i) m

module _ {m : Memory} (bytes : IsBytes m) (size : ℕ → ℕ) (root_dirents count fuel name n : ℕ)
    (named : AreNamed size root_dirents count m) (string : IsString m name n)
    (enough : n < fuel) where
  finddir_from-First :
      (left i : ℕ)
      → i + left ≡ count
      → (r : Option ℕ) × (finddir_from fuel left i root_dirents name m ≡ some r)
        × First (HasName size root_dirents name n m) left i r
  unfolding finddir_from
  finddir_from-First zero i e = (none, refl, nowhere)
  finddir_from-First (suc left) i e =
      let (order, runs, meaning) =
        strcmp-zero_iff bytes string (named i (omega arith)) fuel enough in
      elim (Bool-cases (is_zero order)) [
        | inl equal ↦ (some i, rw (runs, equal), here (meaning.0 equal))
        | inr differ ↦
            let rest = finddir_from-First left (i + 1) (omega arith) in
            (
              rest.0,
              rw (runs, differ) rest.1,
              later (λ same. false≢true (sym differ ∙ meaning.1 same)) rest.2,
            )
      ]

finddir_of_run :
    (fuel : ℕ) (disk : Initrd) (name : ℕ) (m : Memory) (r : Option ℕ)
    → finddir_from fuel disk.nroot_nodes 0 disk.root_dirents name m ≡ some r
    → initrd_finddir fuel disk name m ≡ some (r >>= get_elem? disk.root_nodes)
unfolding initrd_finddir
finddir_of_run fuel disk name m none e = rw e
finddir_of_run fuel disk name m (some i) e = rw e

-- Where every entry holds a terminated name, and with fuel beyond the length of the name that is
-- looked up, `initrd_finddir` ends with the node of the first entry that has the name, and with
-- NULL if there is none.
initrd_finddir-First :
    (fuel : ℕ) (disk : Initrd) (size : ℕ → ℕ) (name n : ℕ) (m : Memory)
    → IsBytes m
    → AreNamed size disk.root_dirents disk.nroot_nodes m
    → IsString m name n
    → n < fuel
    → (r : Option ℕ) × (initrd_finddir fuel disk name m ≡ some (r >>= get_elem? disk.root_nodes))
      × First (HasName size disk.root_dirents name n m) disk.nroot_nodes 0 r
initrd_finddir-First fuel disk size name n m bytes named string enough =
    let found =
      finddir_from-First bytes size disk.root_dirents disk.nroot_nodes fuel name n named string
        enough disk.nroot_nodes 0 (omega arith) in
    (found.0, finddir_of_run fuel disk name m found.0 found.1, found.2)

-- Where every entry holds a terminated name that the fuel covers, `readdir` of an index below
-- their number returns a name, and looking that name up gives the node with the index, if no entry
-- before it has the same name.
pub finddir-readdir :
    (fuel : ℕ) (disk : Initrd) (size : ℕ → ℕ) (index : ℕ) (m : Memory)
    → IsBytes m
    → AreNamed size disk.root_dirents disk.nroot_nodes m
    → ((i : ℕ) → i < disk.nroot_nodes → size i < fuel)
    → index < disk.nroot_nodes
    → ((i : ℕ)
        → i < index
        → ¬ HasName size disk.root_dirents (dirent_at disk.root_dirents index) (size index) m i)
    → (name : ℕ) × (initrd_readdir disk index ≡ some name)
      × (initrd_finddir fuel disk name m ≡ some (get_elem? disk.root_nodes index))
unfolding initrd_readdir
finddir-readdir fuel disk size index m bytes named enough within new =
    let found =
      initrd_finddir-First fuel disk size (dirent_at disk.root_dirents index) (size index) m bytes
        named (named index within) (enough index within) in
    (
      dirent_at disk.root_dirents index,
      ground arith,
      found.1
          ∙ ap (λ (o : Option ℕ). some (o >>= get_elem? disk.root_nodes))
              (First-eq found.2 (refl, λ j lt. refl) (omega arith) (omega arith)
                (λ j p q. new j q)),
    )
