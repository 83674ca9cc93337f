-- ===== src/Boot/Listing.antt =====
-- What the loop of `_start` in kernel/kernel.c lists of a ram disk.
use mathlib.Core.Path.{subst, fun_ext}
use maken_os.Base.{
  ℕ, zero, suc, ◌+◌, ◌≤◌, ◌<◌, ◌≡◌, ◌≢◌, refl, ◌∙◌, sym, ap, arith, ◌⊎◌, inl, inr, eq_of_some,
  Bool-cases, ltb→lt, ltb, if◌then◌else◌, bit_and, none, some, List, [], ◌∷◌, ◌++◌, get_elem?,
  Memory, IsBytes,
}
use maken_os.Klib.Mem.{memset}
use maken_os.Klib.Mem.Laws.{Copied, memset_lem}
use maken_os.Klib.Str.Laws.{IsString, strlen_lem}
use maken_os.Klib.Print.{bytes_at}
use maken_os.Klib.Print.Laws.{bytes_at_ext}
use maken_os.Filesystem.File.{fs_file, fs_directory, readdir_fs, finddir_fs}
use maken_os.Filesystem.Initrd.{
  Initrd, Node, initrd_read_fn, dirent_at, directory_node, initrd_read, initrd_readdir,
  initrd_finddir, initrd_calls,
}
use maken_os.Filesystem.Initrd.Read.{file_start, file_length, initrd_read-Copied, read_fs-initrd}
use maken_os.Filesystem.Initrd.Find.{AreNamed, HasName, finddir-readdir}
use maken_os.Boot.{
  Text, literal, bytes, show_contents, show_node, show_entry, show_next, list_from, list_files,
}

-- The buffer is clear.
abbrev pub IsClear : ℕ → Memory → Type 0
IsClear buf m = (b : ℕ) → buf ≤ b → b < buf + 256 → m b ≡ 0

-- A node of a file of less than 256 bytes, none of them 0, outside the buffer.
pub record IsText (disk : Initrd) (buf : ℕ) (m : Memory) (node : Node) : Type 0 where
  pub is_file : bit_and node.flags 0x7 ≡ fs_file
  pub reads : node.read ≡ some initrd_read_fn
  pub short : file_length disk node m < 256
  pub apart :
      (file_start disk node m + file_length disk node m ≤ buf)
      ⊎ (buf + 256 ≤ file_start disk node m)
  pub nonzero : (j : ℕ) → j < file_length disk node m → m (file_start disk node m + j) ≢ 0

unfoldable pub contents_at : Initrd → Node → Memory → List ℕ
contents_at disk node m = bytes_at (file_length disk node m) (file_start disk node m) m

module _ (disk : Initrd) (node : Node) (buf : ℕ) (m : Memory) (small : IsBytes m)
    (text : IsText disk buf m node) (clear : IsClear buf m) where
  abbrev length : ℕ
  length = file_length disk node m

  abbrev start : ℕ
  start = file_start disk node m

  abbrev read : ℕ × Memory
  read = initrd_read disk node 0 256 buf m

  read-Copied : Copied buf start length m read.1
  read-Copied b =
      let r =
        initrd_read-Copied disk node 0 256 buf m small (omega arith) (omega (arith, text.apart)) in
      r.1 b ∙ ground (arith, r.0, text.short)

  read-IsString : IsString read.1 buf length
  read-IsString = record {
    ends = ground (arith, read-Copied (buf + length), clear (buf + length), text.short);
    inside = λ j lt e. text.nonzero j lt (ground (arith, read-Copied (buf + j), e));
  }

  read-bytes_at : bytes_at length buf read.1 ≡ contents_at disk node m
  unfolding contents_at
  read-bytes_at =
      bytes_at_ext length buf start read.1 m (λ j lt. ground (arith, read-Copied (buf + j)))

  read-memset : memset buf 0 256 read.1 ≡ m
  read-memset =
      fun_ext
        (λ b. ground (arith, memset_lem buf 0 256 read.1 b, read-Copied b, clear b, text.short))

show_contents_lem :
    (fuel : ℕ) (disk : Initrd) (node : Node) (buf : ℕ) (m : Memory)
    → IsBytes m
    → IsText disk buf m node
    → IsClear buf m
    → 256 ≤ fuel
    → show_contents (initrd_calls fuel disk) fuel buf node m
      ≡ some (
        literal "\n\t contents: \"" 14 ∷ bytes (contents_at disk node m) ∷ literal "\"\n" 2 ∷ [],
        m,
      )
unfolding show_contents
show_contents_lem fuel disk node buf m small text clear enough =
    rw
      (
        read_fs-initrd fuel disk node 0 256 buf m text.reads (omega arith),
        strlen_lem fuel (length disk node buf m small text clear) buf
            (read disk node buf m small text clear).1
            (read-IsString disk node buf m small text clear) (omega (arith, text.short)),
        read-bytes_at disk node buf m small text clear,
        read-memset disk node buf m small text clear,
      )
      refl

-- What the kernel relies on of the disk: terminated names that the fuel covers, all different, and
-- a node for each of them, two directories and then texts.
pub record IsDisk (fuel : ℕ) (disk : Initrd) (size : ℕ → ℕ) (node_of : ℕ → Node) (buf : ℕ)
    (m : Memory) : Type 0 where
  pub named : AreNamed size disk.root_dirents disk.nroot_nodes m
  pub covered : (i : ℕ) → i < disk.nroot_nodes → size i < fuel
  pub different :
      (i j : ℕ)
      → i < j
      → j < disk.nroot_nodes
      → ¬ HasName size disk.root_dirents (dirent_at disk.root_dirents j) (size j) m i
  pub nodes : (i : ℕ) → i < disk.nroot_nodes → get_elem? disk.root_nodes i ≡ some (node_of i)
  pub directories : (i : ℕ) → i < 2 → bit_and (node_of i).flags 0x7 ≡ fs_directory
  pub texts : (i : ℕ) → 2 ≤ i → i < disk.nroot_nodes → IsText disk buf m (node_of i)

-- What the listing is to show of entry `i`, and of `left` entries from there.
unfoldable pub node_texts : Initrd → ℕ → Node → Memory → List Text
node_texts disk i node m =
    if ltb i 2
    then literal "\n\t(directory)\n" 14 ∷ []
    else literal "\n\t contents: \"" 14 ∷ bytes (contents_at disk node m) ∷ literal "\"\n" 2 ∷ []

unfoldable pub entry_texts : Initrd → (ℕ → ℕ) → (ℕ → Node) → ℕ → Memory → List Text
entry_texts disk size node_of i m =
    literal "Found file " 11
    ∷ bytes (bytes_at (size i) (dirent_at disk.root_dirents i) m)
    ∷ node_texts disk i (node_of i) m

unfoldable pub disk_texts : ℕ → ℕ → Initrd → (ℕ → ℕ) → (ℕ → Node) → Memory → List Text
disk_texts zero i disk size node_of m = []
disk_texts (suc left) i disk size node_of m =
    entry_texts disk size node_of i m ++ disk_texts left (i + 1) disk size node_of m

module _ (fuel : ℕ) (disk : Initrd) (size : ℕ → ℕ) (node_of : ℕ → Node) (buf : ℕ) (m : Memory)
    (small : IsBytes m) (sound : IsDisk fuel disk size node_of buf m) (clear : IsClear buf m)
    (enough : 256 ≤ fuel) where
  show_node_lem :
      (i : ℕ)
      → i < disk.nroot_nodes
      → show_node (initrd_calls fuel disk) fuel buf (some (node_of i)) m
        ≡ some (node_texts disk i (node_of i) m, m)
  unfolding show_node node_texts
  show_node_lem i within = elim (Bool-cases (ltb i 2)) [
    | inl low ↦ rw (low, sound.directories i (ltb→lt i 2 low)) refl
    | inr high ↦
        let text = sound.texts i (ground arith) within in
        rw (high, text.is_file)
          (show_contents_lem fuel disk (node_of i) buf m small text clear enough)
  ]

  show_entry_lem :
      (i : ℕ)
      → i < disk.nroot_nodes
      → (name : ℕ) × (readdir_fs (initrd_calls fuel disk) (directory_node 0) i m ≡ some (some name))
        × (show_entry (initrd_calls fuel disk) fuel buf (directory_node 0) name m
            ≡ some (entry_texts disk size node_of i m, m))
  unfolding show_entry initrd_readdir readdir_fs finddir_fs directory_node entry_texts
  show_entry_lem i within =
      let found =
        finddir-readdir fuel disk size i m small sound.named sound.covered within
          (λ j lt. sound.different j i lt within) in
      let name = dirent_at disk.root_dirents i in
      let listed : initrd_readdir disk i ≡ some name = ground arith in
      let looked : initrd_finddir fuel disk name m ≡ some (get_elem? disk.root_nodes i) =
        subst (λ (x : ℕ). initrd_finddir fuel disk x m ≡ some (get_elem? disk.root_nodes i))
          (eq_of_some (sym found.1 ∙ listed)) found.2 in
      (
        name,
        ap some listed,
        rw
            (
              strlen_lem fuel (size i) name m (sound.named i within) (sound.covered i within),
              looked,
              sound.nodes i within,
              show_node_lem i within,
            )
            refl,
      )

  list_from_end :
      (i : ℕ)
      → i ≡ disk.nroot_nodes
      → list_from (initrd_calls fuel disk) fuel buf 1 i (directory_node 0) m ≡ some ([], m)
  unfolding initrd_readdir readdir_fs directory_node list_from show_next
  list_from_end i e = let last : initrd_readdir disk i ≡ none = ground arith in rw last refl

  list_from_lem :
      (left i : ℕ)
      → i + left ≡ disk.nroot_nodes
      → list_from (initrd_calls fuel disk) fuel buf (suc left) i (directory_node 0) m
        ≡ some (disk_texts left i disk size node_of m, m)
  unfolding list_from show_next disk_texts
  list_from_lem zero i e = list_from_end i (omega arith)
  list_from_lem (suc left) i e =
      let (name, listed, shown) = show_entry_lem i (omega arith) in
      rw (listed, shown, list_from_lem left (i + 1) (omega arith)) refl

-- With a round for each entry and one for the end, and fuel of 256 that covers every name, the loop
-- of `_start` on a clear buffer and a disk of different names ends: it writes the name of each
-- entry, in order, with what a directory shows for the first two and the text of its file for every
-- other one, and leaves memory as it was.
pub list_files-disk_texts :
    (fuel : ℕ) (disk : Initrd) (size : ℕ → ℕ) (node_of : ℕ → Node) (buf : ℕ) (m : Memory)
    → IsBytes m
    → IsDisk fuel disk size node_of buf m
    → IsClear buf m
    → 256 ≤ fuel
    → list_files (initrd_calls fuel disk) fuel buf (suc disk.nroot_nodes) (directory_node 0) m
      ≡ some (disk_texts disk.nroot_nodes 0 disk size node_of m, m)
unfolding list_files
list_files-disk_texts fuel disk size node_of buf m small sound clear enough =
    list_from_lem fuel disk size node_of buf m small sound clear enough disk.nroot_nodes 0
      (omega arith)
