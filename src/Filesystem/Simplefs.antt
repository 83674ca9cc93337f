-- ===== src/Filesystem/Simplefs.antt =====
-- kernel/filesystem/simplefs.c: the inode table with its two bitmaps. A pointer to an inode is its
-- index in the table, and a block pointer is an address, 0 for NULL.
pub mod Bitmap
pub mod Laws
pub mod Reach
mod Tests
use maken_os.Base.{
  ℕ, zero, suc, ◌+◌, ◌-◌, ◌*◌, ◌/◌, ◌%◌, ◌^◌, List, [], ◌∷◌, Option, none, some, ◌>>=◌, ltb, leb,
  ◌==◌, if◌then◌else◌, bit_and, bit_or, ◌>>>◌, set, get_elem?, replicate, Memory, read_le,
}
use maken_os.Klib.Mem.{memcpy}
use maken_os.Memory.Pmm.{MemmapEntry, address_of, k_malloc}

-- `struct inode`
pub record Inode : Type 0 where
  pub mode : ℕ
  pub uid : ℕ
  pub size : ℕ
  pub time : ℕ
  pub ctime : ℕ
  pub mtime : ℕ
  pub dtime : ℕ
  pub gid : ℕ
  pub links_count : ℕ
  pub blocks : ℕ
  pub flags : ℕ
  pub osd1 : ℕ
  pub block : List ℕ
  pub generation : ℕ
  pub file_acl : ℕ
  pub dir_acl : ℕ

-- `struct vfs`
pub record Vfs : Type 0 where
  pub id : ℕ
  pub length : ℕ
  pub inode_len : ℕ
  pub data_blocks : ℕ

-- `struct inode_table`
pub record InodeTable : Type 0 where
  pub v : Vfs
  pub inode_bitmap : ℕ
  pub dnode_bitmap : ℕ
  pub inodes : List Inode

unfoldable pub empty_inode : Inode
empty_inode = record {
  mode = 0;
  uid = 0;
  size = 0;
  time = 0;
  ctime = 0;
  mtime = 0;
  dtime = 0;
  gid = 0;
  links_count = 0;
  blocks = 0;
  flags = 0;
  osd1 = 0;
  block = replicate 15 0;
  generation = 0;
  file_acl = 0;
  dir_acl = 0;
}

-- `sizeof(inode)` is 176, `sizeof(vfs)` is 32 and `sizeof(inode_table)` is 2864. `56 * 4096` is an
-- `int`, so that `sizeof` of it is 4.
unfoldable pub init_ram_fs : InodeTable → InodeTable
unfolding empty_inode
init_ram_fs table = record table {
  v = record { id = 1; length = 2864; inode_len = 16 * 176; data_blocks = 4 };
  inodes = set table.inodes 0 empty_inode;
}

-- The loop of `fopen` from index `i` on, with `left` indices left: the index of the inode.
fopen_from : ℕ → ℕ → InodeTable → Option ℕ × InodeTable
fopen_from zero i table = (none, table)
fopen_from (suc left) i table =
    let rest = fopen_from left (i + 1) table in
    if bit_and (table.inode_bitmap >>> i) 1 == 0
    then (some i, record table { inode_bitmap = bit_or table.inode_bitmap (2 ^ i) % 2 ^ 16 })
    else rest

-- The file name is not used.
unfoldable pub fopen : InodeTable → Option ℕ × InodeTable
unfolding fopen_from
fopen table = fopen_from 16 0 table

-- `1 << i` as an `int` that is widened to 64 bits: at 31 the sign bit is set, and behind that the
-- shift is undefined.
unfoldable pub shifted_one : ℕ → Option ℕ
shifted_one i = if ltb i 31 then some (2 ^ i) else if i == 31 then some (2 ^ 64 - 2 ^ 31) else none

-- The loop of `f_malloc`: the index of the bit that it takes, and the bitmap. The outer option is an
-- undefined shift.
pub take_dnode : ℕ → ℕ → ℕ → Option (Option ℕ × ℕ)
take_dnode zero i bitmap = some (none, bitmap)
take_dnode (suc left) i bitmap =
    let rest = take_dnode left (i + 1) bitmap in
    let taken : Option (Option ℕ × ℕ) = (do
      one ← shifted_one i
      some (some i, bit_or bitmap one)) in
    if bit_and (bitmap >>> i) 1 == 0 then taken else rest

-- What `f_malloc` does with the bit that it took, on a node outside the table or in it. A block
-- that `k_malloc` does not give is NULL in the node, and its bit stays taken.
place_block :
    ℕ
    → MemmapEntry
    → InodeTable
    → Inode
    → ℕ
    → Memory
    → Option ℕ × ℕ
    → Option (ℕ × InodeTable × Inode × Memory)
place_block fuel memmap table node block_index m (none, bitmap) = some (0, table, node, m)
place_block fuel memmap table node block_index m (some i, bitmap) = do
  (p, m') ← k_malloc fuel memmap 4096 m
  some (
    address_of p,
    record table { dnode_bitmap = bitmap },
    record node { block = set node.block block_index (address_of p) },
    m',
  )

-- The block, the table, the node and the memory. `none` is an undefined shift or a `k_malloc` out of
-- fuel.
unfoldable pub f_malloc :
    ℕ → MemmapEntry → InodeTable → Inode → ℕ → Memory → Option (ℕ × InodeTable × Inode × Memory)
unfolding place_block
f_malloc fuel memmap table node block_index m =
    take_dnode 56 0 table.dnode_bitmap >>= place_block fuel memmap table node block_index m

-- `f_write` copies the data over the block pointers of a node, and `f_read` copies a pointer to the
-- buffer for each block that is not NULL. Here the node lies in memory, its block pointers, 8 bytes
-- each, from `node_block` on.
unfoldable pub f_write : ℕ → ℕ → ℕ → Memory → ℕ × Memory
f_write node_block source len m = (1, memcpy node_block source len m)

f_read_from : ℕ → ℕ → ℕ → ℕ → ℕ → Memory → Memory
f_read_from zero i node_block buffer length m = m
f_read_from (suc left) i node_block buffer length m =
    f_read_from left (i + 1) node_block buffer length (
      if read_le 8 m (node_block + 8 * i) == 0
      then m
      else memcpy buffer (node_block + 8 * i) length m)

unfoldable pub f_read : ℕ → ℕ → ℕ → ℕ → Memory → ℕ × Memory
unfolding f_read_from
f_read node_block buffer blocks length m = (1, f_read_from blocks 0 node_block buffer length m)
