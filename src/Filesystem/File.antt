-- ===== src/Filesystem/File.antt =====
-- kernel/filesystem/file.c: calls through the function pointers of a node. A pointer is a value of
-- a type `F`, `none` for NULL; what the functions behind the pointers do is a `Calls` record, which
-- a file system fills. `none` as the result of a call means that it does not return.
use maken_os.Base.{ℕ, ◌%◌, ◌^◌, Option, none, some, ◌==◌, if◌then◌else◌, bit_and}

abbrev pub fs_file : ℕ
fs_file = 0x01

abbrev pub fs_directory : ℕ
fs_directory = 0x02

-- `struct fs_node`; `ptr` is an address.
pub record FsNode (F : Type 0) : Type 0 where
  pub flags : ℕ
  pub mask : ℕ
  pub uid : ℕ
  pub gid : ℕ
  pub inode : ℕ
  pub length : ℕ
  pub impl : ℕ
  pub read : Option F
  pub write : Option F
  pub opener : Option F
  pub close : Option F
  pub readdir : Option F
  pub finddir : Option F
  pub ptr : ℕ

-- What the functions of a file system do to the state `S`. A directory entry and a name are
-- addresses.
pub record Calls (F S : Type 0) : Type 0 where
  pub read : F → FsNode F → ℕ → ℕ → ℕ → S → Option (ℕ × S)
  pub write : F → FsNode F → ℕ → ℕ → ℕ → S → Option (ℕ × S)
  pub opener : F → FsNode F → S → Option S
  pub close : F → FsNode F → S → Option S
  pub readdir : F → FsNode F → ℕ → S → Option (Option ℕ)
  pub finddir : F → FsNode F → ℕ → S → Option (Option (FsNode F))

module _ {F S : Type 0} (calls : Calls F S) where
  -- `size` is a `uint32_t` here.
  unfoldable pub read_fs : FsNode F → ℕ → ℕ → ℕ → S → Option (ℕ × S)
  read_fs node offset size buffer s = elim node.read [
    | none ↦ some (0, s)
    | some f ↦ calls.read f node offset (size % 2 ^ 32) buffer s
  ]

  unfoldable pub write_fs : FsNode F → ℕ → ℕ → ℕ → S → Option (ℕ × S)
  write_fs node offset size buffer s = elim node.write [
    | none ↦ some (0, s)
    | some f ↦ calls.write f node offset size buffer s
  ]

  unfoldable pub open_fs : FsNode F → S → Option S
  open_fs node s = elim node.opener [ none ↦ some s | some f ↦ calls.opener f node s ]

  unfoldable pub close_fs : FsNode F → S → Option S
  close_fs node s = elim node.close [ none ↦ some s | some f ↦ calls.close f node s ]

  unfoldable pub readdir_fs : FsNode F → ℕ → S → Option (Option ℕ)
  readdir_fs node index s = elim node.readdir [
    | none ↦ some none
    | some f ↦
        if bit_and node.flags 0x7 == fs_directory then calls.readdir f node index s else some none
  ]

  unfoldable pub finddir_fs : FsNode F → ℕ → S → Option (Option (FsNode F))
  finddir_fs node name s = elim node.finddir [
    | none ↦ some none
    | some f ↦
        if bit_and node.flags 0x7 == fs_directory then calls.finddir f node name s else some none
  ]
