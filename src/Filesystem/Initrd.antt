-- ===== src/Filesystem/Initrd.antt =====
-- kernel/filesystem/initrd.c: the ram disk. Its image, the directory entries and the buffers are in
-- byte memory; the array of nodes, which holds function pointers, is a list beside it. `none` means
-- that the fuel of a string loop or of `k_malloc` ran out.
pub mod Read
pub mod Find
pub mod Load
pub mod Entry
pub mod Mount
pub mod Initialise
mod Names
mod Tests
use maken_os.Base.{
  ℕ, zero, suc, ◌+◌, ◌-◌, ◌*◌, ◌%◌, ◌^◌, List, [], ◌∷◌, ◌++◌, Option, none, some, ◌>>=◌, leb, ltb,
  if◌then◌else◌, get_elem?, Memory, read_le, write_le, store, is_zero,
}
use maken_os.Klib.Mem.{memcpy}
use maken_os.Klib.Str.{strcmp, strcpy}
use maken_os.Memory.Pmm.{MemmapEntry, address_of, k_malloc}
use maken_os.Filesystem.File.{FsNode, Calls, fs_file, fs_directory}

-- The functions that a node may point to.
pub data InitrdFn : Type 0 where
  initrd_read_fn initrd_readdir_fn initrd_finddir_fn : InitrdFn

abbrev pub Node : Type 0
Node = FsNode InitrdFn

-- The variables of the file.
pub record Initrd : Type 0 where
  pub root_dirents : ℕ
  pub root_nodes : List Node
  pub file_headers : ℕ
  pub nroot_nodes : ℕ

-- `sizeof(struct dirent)`, `sizeof(initrd_file_header_t)`, `sizeof(fs_node_t)`, and where the
-- members of the first two stand.
abbrev pub dirent_size : ℕ
dirent_size = 132

abbrev pub header_size : ℕ
header_size = 88

abbrev pub node_size : ℕ
node_size = 88

module _ (file_headers i : ℕ) where
  abbrev pub header_name : ℕ
  header_name = file_headers + header_size * i + 1

  abbrev pub header_offset : ℕ
  header_offset = file_headers + header_size * i + 72

  abbrev pub header_length : ℕ
  header_length = file_headers + header_size * i + 80

abbrev pub dirent_at : ℕ → ℕ → ℕ
dirent_at root_dirents i = root_dirents + dirent_size * i

-- `size_t` and `uint32_t` arithmetic wraps.
unfoldable pub initrd_read : Initrd → Node → ℕ → ℕ → ℕ → Memory → ℕ × Memory
initrd_read disk node offset size buffer m =
    let i = (node.inode + 2 ^ 32 - 2) % 2 ^ 32 in
    let length = read_le 8 m (header_length disk.file_headers i) in
    let start = read_le 8 m (header_offset disk.file_headers i) in
    let size' = if ltb length ((offset + size) % 2 ^ 64) then length - offset else size in
    if ltb length offset then (0, m) else (size', memcpy buffer (start + offset) size' m)

unfoldable pub initrd_readdir : Initrd → ℕ → Option ℕ
initrd_readdir disk index =
    if leb disk.nroot_nodes index then none else some (dirent_at disk.root_dirents index)

-- The loop of `initrd_finddir` from index `i` on: the index of the node that it returns.
finddir_from : ℕ → ℕ → ℕ → ℕ → ℕ → Memory → Option (Option ℕ)
finddir_from fuel zero i root_dirents name m = some none
finddir_from fuel (suc left) i root_dirents name m =
    let rest = finddir_from fuel left (i + 1) root_dirents name m in
    (do
      order ← strcmp fuel name (dirent_at root_dirents i) m
      if is_zero order then some (some i) else rest)

unfoldable pub initrd_finddir : ℕ → Initrd → ℕ → Memory → Option (Option Node)
unfolding finddir_from
initrd_finddir fuel disk name m = do
  found ← finddir_from fuel disk.nroot_nodes 0 disk.root_dirents name m
  elim found [ none ↦ some none | some i ↦ some (get_elem? disk.root_nodes i) ]

-- A call through a pointer of a node reaches the function that it names. A pointer to a function of
-- another type is never called, and no node has a pointer in the other members.
abbrev pub initrd_calls : ℕ → Initrd → Calls InitrdFn Memory
initrd_calls fuel disk = record {
  read = λ f node offset size buffer m. elim f [
    | initrd_read_fn ↦ some (initrd_read disk node offset size buffer m)
    | _ ↦ none
  ];
  write = λ f node offset size buffer m. none;
  opener = λ f node m. none;
  close = λ f node m. none;
  readdir =
      λ f node index m. elim f [ initrd_readdir_fn ↦ some (initrd_readdir disk index) | _ ↦ none ];
  finddir =
      λ f node name m. elim f [ initrd_finddir_fn ↦ initrd_finddir fuel disk name m | _ ↦ none ];
}

unfoldable pub directory_node : ℕ → Node
directory_node i = record {
  flags = fs_directory;
  mask = 0;
  uid = 0;
  gid = 0;
  inode = i;
  length = 0;
  impl = 0;
  read = none;
  write = none;
  opener = none;
  close = none;
  readdir = some initrd_readdir_fn;
  finddir = some initrd_finddir_fn;
  ptr = 0;
}

-- `inode` and `length` are `uint32_t`; `ptr` keeps the 0 of the allocation.
unfoldable pub file_node : ℕ → ℕ → Node
file_node i length = record {
  flags = fs_file;
  mask = 0;
  uid = 0;
  gid = 0;
  inode = i % 2 ^ 32;
  length = length % 2 ^ 32;
  impl = 0;
  read = some initrd_read_fn;
  write = none;
  opener = none;
  close = none;
  readdir = none;
  finddir = none;
  ptr = 0;
}

-- The memory that one round of the loop of `initialise_initrd` leaves, for file `k` (node `k + 2`).
unfoldable pub add_file : ℕ → ℕ → ℕ → ℕ → ℕ → Memory → Option Memory
add_file fuel location headers dirents k m =
    let moved = (read_le 8 m (header_offset headers k) + location) % 2 ^ 64 in
    let m1 = write_le 8 m (header_offset headers k) moved in
    (do
      m2 ← strcpy fuel (dirent_at dirents (k + 2)) (header_name headers k) m1
      some (write_le 4 m2 (dirent_at dirents (k + 2) + 128) ((k + 2) % 2 ^ 32)))

-- The loop from file `k` on: the nodes of the files, and the memory.
unfoldable pub add_files : ℕ → ℕ → ℕ → ℕ → ℕ → ℕ → Memory → Option (List Node × Memory)
add_files fuel zero location headers dirents k m = some ([], m)
add_files fuel (suc left) location headers dirents k m = do
  m' ← add_file fuel location headers dirents k m
  (nodes, m'') ← add_files fuel left location headers dirents (k + 1) m'
  some (file_node (k + 2) (read_le 8 m' (header_length headers k)) ∷ nodes, m'')

-- The bytes of a name, one after another.
store_bytes : ℕ → List ℕ → Memory → Memory
store_bytes a [] m = m
store_bytes a (c ∷ cs) m = store_bytes (a + 1) cs (store m a c)

-- `strcpy(root_dirents[i].name, …); root_dirents[i].ino = i;` of a literal, which has no terminator
-- copied.
unfoldable pub name_directory : ℕ → ℕ → List ℕ → Memory → Memory
unfolding store_bytes
name_directory dirents i name m =
    write_le 4 (store_bytes (dirent_at dirents i) name m) (dirent_at dirents i + 128) i

-- A null pointer from `k_malloc` is not noticed: the entries are then written from address 0 on.
unfoldable pub initialise_initrd : ℕ → MemmapEntry → ℕ → Memory → Option (Initrd × Memory)
initialise_initrd fuel memmap location m = do
  (nodes, m1) ← k_malloc fuel memmap (node_size * (read_le 8 m location + 2) % 2 ^ 64) m
  (entries, m2) ← k_malloc fuel memmap (dirent_size * (read_le 8 m1 location + 2) % 2 ^ 64) m1
  let dirents = address_of entries
  let m3 = name_directory dirents 0 (b'/' ∷ []) m2
  let m4 = name_directory dirents 1 (b'd' ∷ b'e' ∷ b'v' ∷ []) m3
  let nroot = (read_le 8 m4 location + 2) % 2 ^ 64
  (files, m5) ← add_files fuel (nroot - 2) location (location + 8) dirents 0 m4
  some (
    record {
      root_dirents = dirents;
      root_nodes = directory_node 0 ∷ directory_node 1 ∷ files;
      file_headers = location + 8;
      nroot_nodes = nroot;
    },
    m5,
  )
