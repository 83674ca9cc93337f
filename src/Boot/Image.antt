-- ===== src/Boot/Image.antt =====
-- From an image in memory to the listing: `initialise_initrd` of kernel/filesystem/initrd.c and the
-- loop of `_start` in kernel/kernel.c behind it.
pub mod Shown
mod Tests
use native.Mathlib.Decide.{dec_lt}
use maken_os.Base.{
  ℕ, zero, suc, ◌+◌, ◌-◌, ◌*◌, ◌%◌, ◌^◌, ◌≤◌, ◌<◌, ◌≡◌, ◌≢◌, refl, ◌∙◌, sym, ap, ap₂, arith, ◌⊎◌,
  inl, inr, ltb, false, ◌==◌, if◌then◌else◌, bit_and, Option, some, List, [], ◌∷◌, ◌++◌, get_elem?,
  Memory, IsBytes, read_le,
}
use maken_os.Klib.Print.{bytes_at}
use maken_os.Klib.Print.Laws.{bytes_at_ext}
use maken_os.Filesystem.File.{fs_file, fs_directory}
use maken_os.Filesystem.Initrd.{
  Initrd, Node, header_name, header_offset, header_length, dirent_at, directory_node, file_node,
  initrd_calls,
}
use maken_os.Filesystem.Initrd.Read.{header_index, file_start, file_length}
use maken_os.Filesystem.Initrd.Find.{HasName}
use maken_os.Filesystem.Initrd.Load.{loaded_node}
use maken_os.Filesystem.Initrd.Entry.{File}
use maken_os.Filesystem.Initrd.Mount.{IsImage, IsMounted, name_size, root_name, dev_name}
use maken_os.Memory.Pmm.{MemmapEntry, block_size, k_malloc}
use maken_os.Filesystem.Initrd.Initialise.{SameBeyond, initialise_initrd-IsMounted}
use maken_os.Boot.{Text, literal, bytes, list_files}
use maken_os.Boot.Listing.{
  IsClear, IsDisk, IsText, contents_at, node_texts, entry_texts, disk_texts, list_files-disk_texts,
}

-- What the image says of its directory: the names, and the text of file `k`.
unfoldable pub name_of : ℕ → (ℕ → ℕ) → Memory → ℕ → List ℕ
name_of location len m zero = root_name
name_of location len m (suc zero) = dev_name
name_of location len m (suc (suc k)) = bytes_at (len k) (header_name (location + 8) k) m

abbrev pub text_start : ℕ → Memory → ℕ → ℕ
text_start location m k = (read_le 8 m (header_offset (location + 8) k) + location) % 2 ^ 64

abbrev pub text_length : ℕ → Memory → ℕ → ℕ
text_length location m k = read_le 8 m (header_length (location + 8) k)

-- The text of file `k` has less than 256 bytes, none of them 0, and lies apart from the entry of the
-- allocator, from the headers and from the buffer.
pub record IsTextFile (memmap : MemmapEntry) (location n buf : ℕ) (m : Memory) (k : ℕ)
    : Type 0 where
  pub short : text_length location m k < 256
  pub nonzero : (j : ℕ) → j < text_length location m k → m (text_start location m k + j) ≢ 0
  pub beyond_entry :
      (text_start location m k + text_length location m k ≤ memmap.base)
      ⊎ (memmap.base + 8 * memmap.length ≤ text_start location m k)
  pub beyond_headers :
      (text_start location m k + text_length location m k ≤ location + 8)
      ⊎ (location + 8 + 88 * n ≤ text_start location m k)
  pub beyond_buffer :
      (text_start location m k + text_length location m k ≤ buf)
      ⊎ (buf + 256 ≤ text_start location m k)

-- The node of entry `i`.
unfoldable pub node_of : ℕ → Memory → ℕ → Node
node_of location m zero = directory_node 0
node_of location m (suc zero) = directory_node 1
node_of location m (suc (suc k)) = loaded_node (location + 8) m k

module _ (location n : ℕ) (len : ℕ → ℕ) (m : Memory) (disk : Initrd) (m' : Memory)
    (mounted : IsMounted location n len m disk m') where
  -- Each entry has the name that the image gives it.
  pub entry-name_of :
      (i : ℕ)
      → i < n + 2
      → bytes_at (name_size len i) (dirent_at disk.root_dirents i) m' ≡ name_of location len m i
  unfolding name_size name_of
  entry-name_of zero within = mounted.root
  entry-name_of (suc zero) within = mounted.dev
  entry-name_of (suc (suc k)) within =
      let here : suc (suc k) ≡ k + 2 = omega arith in
      let file = mounted.files k (omega arith) in
      ap (λ (i : ℕ). bytes_at (len k) (dirent_at disk.root_dirents i) m') here
      ∙ bytes_at_ext (len k) (dirent_at disk.root_dirents (k + 2)) (header_name (location + 8) k) m'
          m file.name

  -- Entries of one name in the directory have one name in the image.
  pub HasName-name_of :
      (i j : ℕ)
      → i < n + 2
      → j < n + 2
      → HasName
          (name_size len)
          disk.root_dirents
          (dirent_at disk.root_dirents j)
          (name_size len j)
          m'
          i
      → name_of location len m j ≡ name_of location len m i
  HasName-name_of i j lo hi same =
      sym (entry-name_of j hi)
      ∙ bytes_at_ext (name_size len j) (dirent_at disk.root_dirents j)
          (dirent_at disk.root_dirents i) m' m' same.1
      ∙ ap (λ (t : ℕ). bytes_at t (dirent_at disk.root_dirents i) m') same.0
      ∙ entry-name_of i lo

  pub node_at : (i : ℕ) → i < n + 2 → get_elem? disk.root_nodes i ≡ some (node_of location m i)
  unfolding node_of
  node_at zero within = mounted.directories 0 (omega arith)
  node_at (suc zero) within = mounted.directories 1 (omega arith)
  node_at (suc (suc k)) within =
      let here : suc (suc k) ≡ k + 2 = omega arith in
      ap (get_elem? disk.root_nodes) here ∙ mounted.nodes k (omega arith)

  -- The header of a node is that of its file.
  module _ (k : ℕ) (within : k < n) (few : n + 2 < 2 ^ 32) where
    start_lem : file_start disk (loaded_node (location + 8) m k) m' ≡ text_start location m k
    unfolding file_node
    start_lem =
        let at : header_offset disk.file_headers (header_index (loaded_node (location + 8) m k))
            ≡ header_offset (location + 8) k =
          omega (arith, mounted.headers) in
        ap (read_le 8 m') at ∙ (mounted.files k within).offset

    length_lem : file_length disk (loaded_node (location + 8) m k) m' ≡ text_length location m k
    unfolding file_node
    length_lem =
        let at : header_length disk.file_headers (header_index (loaded_node (location + 8) m k))
            ≡ header_length (location + 8) k =
          omega (arith, mounted.headers) in
        ap (read_le 8 m') at ∙ (mounted.files k within).length

    module _ (memmap : MemmapEntry) (buf : ℕ) (beyond : SameBeyond memmap location n m m')
        (text : IsTextFile memmap location n buf m k) where
      same_text :
          (j : ℕ)
          → j < text_length location m k
          → m' (text_start location m k + j) ≡ m (text_start location m k + j)
      same_text j lt =
          beyond (text_start location m k + j) (omega (arith, text.beyond_entry))
            (omega (arith, text.beyond_headers))

      pub loaded-IsText : IsText disk buf m' (loaded_node (location + 8) m k)
      unfolding file_node
      loaded-IsText = record {
        is_file = refl;
        reads = refl;
        short = omega (arith, length_lem, text.short);
        apart = omega (arith, start_lem, length_lem, text.beyond_buffer);
        nonzero = λ j lt e. text.nonzero j (omega (arith, length_lem)) (
            sym (same_text j (omega (arith, length_lem)))
            ∙ ap (λ (t : ℕ). m' (t + j)) (sym start_lem)
            ∙ e);
      }

      pub loaded-contents_at :
          contents_at disk (loaded_node (location + 8) m k) m'
          ≡ bytes_at (text_length location m k) (text_start location m k) m
      unfolding contents_at
      loaded-contents_at =
          ap₂ (λ (l a : ℕ). bytes_at l a m') length_lem start_lem
          ∙ bytes_at_ext (text_length location m k) (text_start location m k)
              (text_start location m k) m' m same_text
