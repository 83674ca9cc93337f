-- ===== src/Filesystem/Initrd/Mount.antt =====
-- `initialise_initrd` of kernel/filesystem/initrd.c behind its allocations.
use mathlib.Core.Path.{subst}
use maken_os.Base.{
  ℕ, zero, suc, ◌+◌, ◌-◌, ◌*◌, ◌%◌, ◌^◌, ◌≤◌, ◌<◌, ◌≡◌, refl, ◌∙◌, sym, ap, arith, ◌⊎◌, Option,
  some, ◌>>=◌, List, [], ◌∷◌, get_elem?, Memory, IsBytes, SameOutside, read_le, read_le_ext,
}
use maken_os.Klib.Print.{bytes_at}
use maken_os.Klib.Print.Laws.{bytes_at_ext}
use maken_os.Klib.Str.Laws.{IsString}
use maken_os.Filesystem.Initrd.{
  Initrd, Node, header_name, dirent_at, directory_node, file_node, name_directory, add_files,
}
use maken_os.Filesystem.Initrd.Names.{
  AreChars, name_directory-SameOutside, name_directory-IsBytes, name_directory-IsString,
  name_directory-bytes_at,
}
use maken_os.Filesystem.Initrd.Find.{AreNamed}
use maken_os.Filesystem.Initrd.Entry.{File, File-before, IsReady}
use maken_os.Filesystem.Initrd.Load.{Loaded, loaded_node, add_files-Loaded}

abbrev pub root_name : List ℕ
root_name = b'/' ∷ []

abbrev pub dev_name : List ℕ
dev_name = b'd' ∷ b'e' ∷ b'v' ∷ []

root_name-AreChars : AreChars root_name
unfolding AreChars
root_name-AreChars = (λ e. omega (arith, e), omega arith, tt)

dev_name-AreChars : AreChars dev_name
unfolding AreChars
dev_name-AreChars = (
  λ e. omega (arith, e),
  omega arith,
  (λ e. omega (arith, e), omega arith, (λ e. omega (arith, e), omega arith, tt)),
)

-- An image of `n` files: names of less than 64 bytes, of the lengths that `len` gives.
pub record IsImage (location n : ℕ) (len : ℕ → ℕ) (m : Memory) : Type 0 where
  pub count : read_le 8 m location ≡ n
  pub names : (k : ℕ) → k < n → IsString m (header_name (location + 8) k) (len k)
  pub short : (k : ℕ) → k < n → len k < 64

-- The lengths of the names in the root directory.
unfoldable pub name_size : (ℕ → ℕ) → ℕ → ℕ
name_size len zero = 1
name_size len (suc zero) = 3
name_size len (suc (suc k)) = len k

-- What `initialise_initrd` makes of an image in `m`.
pub record IsMounted (location n : ℕ) (len : ℕ → ℕ) (m : Memory) (disk : Initrd) (m' : Memory)
    : Type 0 where
  pub small : IsBytes m'
  pub count : disk.nroot_nodes ≡ n + 2
  pub headers : disk.file_headers ≡ location + 8
  pub named : AreNamed (name_size len) disk.root_dirents (n + 2) m'
  pub root : bytes_at 1 (dirent_at disk.root_dirents 0) m' ≡ root_name
  pub dev : bytes_at 3 (dirent_at disk.root_dirents 1) m' ≡ dev_name
  pub files : (k : ℕ) → k < n → File location (location + 8) disk.root_dirents k (len k) m m'
  pub directories : (i : ℕ) → i < 2 → get_elem? disk.root_nodes i ≡ some (directory_node i)
  pub nodes :
      (k : ℕ) → k < n → get_elem? disk.root_nodes (k + 2) ≡ some (loaded_node (location + 8) m k)

-- Behind the two allocations: the image is as before, and the entries are clear.
module _ (fuel location n p : ℕ) (len : ℕ → ℕ) (m m2 : Memory)
    (enough : (k : ℕ) → k < n → len k < fuel) (image : IsImage location n len m)
    (same : (b : ℕ) → location ≤ b → b < location + 8 + 88 * n → m2 b ≡ m b) (small : IsBytes m2)
    (clear : (b : ℕ) → p ≤ b → b < p + 132 * (n + 2) → m2 b ≡ 0)
    (regions : (p + 132 * (n + 2) ≤ location) ⊎ (location + 8 + 88 * n ≤ p)) where
  abbrev pub m3 : Memory
  m3 = name_directory p 0 root_name m2

  abbrev pub m4 : Memory
  m4 = name_directory p 1 dev_name m3

  m3-same : SameOutside (dirent_at p 0) 132 m2 m3
  m3-same = name_directory-SameOutside p 0 root_name m2 (omega arith) root_name-AreChars

  m4-same : SameOutside (dirent_at p 1) 132 m3 m4
  m4-same = name_directory-SameOutside p 1 dev_name m3 (omega arith) dev_name-AreChars

  m4-IsBytes : IsBytes m4
  m4-IsBytes =
      name_directory-IsBytes p 1 dev_name m3 (omega arith) dev_name-AreChars
        (name_directory-IsBytes p 0 root_name m2 (omega arith) root_name-AreChars small)

  root-IsString : IsString m3 (dirent_at p 0) 1
  root-IsString =
      name_directory-IsString p 0 root_name m2 (omega arith) root_name-AreChars
        (clear _ (omega arith) (omega arith))

  dev-IsString : IsString m4 (dirent_at p 1) 3
  dev-IsString =
      name_directory-IsString p 1 dev_name m3 (omega arith) dev_name-AreChars
        (m3-same _ (omega arith) ∙ clear _ (omega arith) (omega arith))

  image-same : (b : ℕ) → location ≤ b → b < location + 8 + 88 * n → m4 b ≡ m b
  image-same b lo hi =
      m4-same b (omega (arith, regions)) ∙ m3-same b (omega (arith, regions)) ∙ same b lo hi

  count : read_le 8 m4 location ≡ n
  count = read_le_ext 8 m m4 location (λ b lo hi. image-same b lo (omega arith)) ∙ image.count

  ready : (k : ℕ) → k < n → IsReady (location + 8) p k (len k) m4
  ready k within = record {
    name = record {
      ends =
          image-same _ (omega arith) (omega (arith, image.short k within))
          ∙ (image.names k within).ends;
      inside = λ j lt e.
          (image.names k within).inside j lt
            (sym (image-same _ (omega arith) (omega (arith, image.short k within))) ∙ e);
    };
    short = image.short k within;
    clear = λ b lo hi.
        m4-same b (omega arith) ∙ m3-same b (omega arith) ∙ clear b (omega arith) (omega arith);
    apart = omega (arith, regions);
  }

  abbrev Tail : List Node → Memory → Type 0
  Tail nodes m5 =
      Loaded fuel location (location + 8) p n len enough (omega (arith, regions)) 0 m4 nodes m5

  tail :
      (nodes : List Node) × (m5 : Memory) × (add_files fuel n location (location + 8) p 0 m4
        ≡ some (nodes, m5))
      × Tail nodes m5
  tail =
      add_files-Loaded fuel location (location + 8) p n len enough (omega (arith, regions)) n 0 m4
        (omega arith) m4-IsBytes (λ k lo hi. ready k hi)

  module _ (nodes : List Node) (m5 : Memory) (loaded : Tail nodes m5) where
    -- The entries of the two directories stay as they are.
    directory-same : (b : ℕ) → p ≤ b → b < p + 264 → m5 b ≡ m4 b
    directory-same b lo hi = loaded.same b (λ k lo' hi'. (omega (arith, regions), omega arith))

    named : AreNamed (name_size len) p (n + 2) m5
    unfolding name_size
    named zero within = record {
      ends =
          directory-same _ (omega arith) (omega arith)
          ∙ m4-same _ (omega arith)
          ∙ root-IsString.ends;
      inside = λ j lt e.
          root-IsString.inside j lt
            (sym (directory-same _ (omega arith) (omega arith) ∙ m4-same _ (omega arith)) ∙ e);
    }
    named (suc zero) within = record {
      ends = directory-same _ (omega arith) (omega arith) ∙ dev-IsString.ends;
      inside = λ j lt e.
          dev-IsString.inside j lt (sym (directory-same _ (omega arith) (omega arith)) ∙ e);
    }
    named (suc (suc k)) within =
        let here : k + 2 ≡ suc (suc k) = omega arith in
        subst (λ (i : ℕ). IsString m5 (dirent_at p i) (len k)) here
          (loaded.files k (omega arith) (omega arith)).string

    node_at :
        (k : ℕ)
        → k < n
        → get_elem? (directory_node 0 ∷ directory_node 1 ∷ nodes) (k + 2)
          ≡ some (loaded_node (location + 8) m k)
    node_at k within =
        let here : k + 2 ≡ suc (suc k) = omega arith in
        let from : 0 + k ≡ k = omega arith in
        ap (get_elem? (directory_node 0 ∷ directory_node 1 ∷ nodes)) here
        ∙ loaded.nodes_at k (omega arith)
        ∙ ap (λ (t : ℕ). some (loaded_node (location + 8) m4 t)) from
        ∙ ap (λ (t : ℕ). some (file_node (k + 2) t))
            (read_le_ext 8 m m4 _ (λ b lo hi. image-same b (omega arith) (omega arith)))

    directory_at :
        (i : ℕ)
        → i < 2
        → get_elem? (directory_node 0 ∷ directory_node 1 ∷ nodes) i ≡ some (directory_node i)
    directory_at zero lt = refl
    directory_at (suc zero) lt = refl
    directory_at (suc (suc i)) lt = absurd (omega arith)

    abbrev mounted : Initrd
    mounted = record {
      root_dirents = p;
      root_nodes = directory_node 0 ∷ directory_node 1 ∷ nodes;
      file_headers = location + 8;
      nroot_nodes = (read_le 8 m4 location + 2) % 2 ^ 64;
    }

    initrd-IsMounted : n + 2 < 2 ^ 64 → IsMounted location n len m mounted m5
    initrd-IsMounted few = record {
      small = loaded.small;
      count = omega (arith, count);
      headers = refl;
      named = named;
      root =
          bytes_at_ext 1 (dirent_at p 0) (dirent_at p 0) m5 m3
            (λ j lt. directory-same _ (omega arith) (omega arith) ∙ m4-same _ (omega arith))
          ∙ name_directory-bytes_at p 0 root_name m2 (omega arith) root_name-AreChars;
      dev =
          bytes_at_ext 3 (dirent_at p 1) (dirent_at p 1) m5 m4
            (λ j lt. directory-same _ (omega arith) (omega arith))
          ∙ name_directory-bytes_at p 1 dev_name m3 (omega arith) dev_name-AreChars;
      files = λ k within.
          File-before location (location + 8) p k (len k) m m4 m5
            (λ b lo hi. image-same b (omega arith) (omega arith)) (image.short k within)
            (loaded.files k (omega arith) within);
      directories = directory_at;
      nodes = node_at;
    }

    initrd-same :
        (b : ℕ)
        → (b < p) ⊎ (p + 132 * (n + 2) ≤ b)
        → (b < location + 8) ⊎ (location + 8 + 88 * n ≤ b)
        → m5 b ≡ m2 b
    initrd-same b out out_headers =
        loaded.same b (λ k lo hi. (omega (arith, out_headers), omega (arith, out)))
        ∙ m4-same b (omega (arith, out))
        ∙ m3-same b (omega (arith, out))

  -- What the function returns behind the loop.
  abbrev pub filled : List Node × Memory → Option (Initrd × Memory)
  filled x = some (
    record {
      root_dirents = p;
      root_nodes = directory_node 0 ∷ directory_node 1 ∷ x.0;
      file_headers = location + 8;
      nroot_nodes = (read_le 8 m4 location + 2) % 2 ^ 64;
    },
    x.1,
  )

  pub finish-IsMounted :
      n + 2 < 2 ^ 64
      → (disk : Initrd) × (m' : Memory) × ((add_files fuel
              ((read_le 8 m4 location + 2) % 2 ^ 64 - 2)
              location
              (location + 8)
              p
              0
              m4
            >>= filled)
          ≡ some (disk, m'))
        × (disk.root_dirents ≡ p)
        × IsMounted location n len m disk m'
        × ((b : ℕ)
            → (b < p) ⊎ (p + 132 * (n + 2) ≤ b)
            → (b < location + 8) ⊎ (location + 8 + 88 * n ≤ b)
            → m' b ≡ m2 b)
  finish-IsMounted few =
      let (nodes, m5, runs, loaded) = tail in
      let files_left : (read_le 8 m4 location + 2) % 2 ^ 64 - 2 ≡ n = omega (arith, count) in
      (
        mounted nodes m5 loaded,
        m5,
        rw (files_left, runs) refl,
        refl,
        initrd-IsMounted nodes m5 loaded few,
        initrd-same nodes m5 loaded,
      )
