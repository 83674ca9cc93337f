-- ===== src/Filesystem/Simplefs/Reach.antt =====
-- The tables that the calls of kernel/filesystem/simplefs.c lead to, in any order.
use maken_os.Base.{ℕ, ◌^◌, ◌<◌, ◌≡◌, some, bit, Memory}
use maken_os.Memory.Pmm.{MemmapEntry}
use maken_os.Filesystem.Simplefs.{InodeTable, Inode, fopen, f_malloc, init_ram_fs}
use maken_os.Filesystem.Simplefs.Laws.{IsDnodeBitmap}

-- A call of `initRamFS`, `fopen` or `f_malloc`, with any arguments and in any memory.
pub data Step : InodeTable → InodeTable → Type 0 where
  started : {t : InodeTable} → Step t (init_ram_fs t)
  opened : {t : InodeTable} → Step t (fopen t).1
  allocated :
      {t t' : InodeTable} {p : ℕ} {node' : Inode} {m' : Memory} (fuel : ℕ) (memmap : MemmapEntry)
      (node : Inode) (block_index : ℕ) (m : Memory)
      → f_malloc fuel memmap t node block_index m ≡ some (p, t', node', m')
      → Step t t'

pub data Reach (s : InodeTable) : InodeTable → Type 0 where
  here : Reach s s
  next : {t u : InodeTable} → Reach s t → Step t u → Reach s u

pub record IsTable (t : InodeTable) : Type 0 where
  pub inodes : t.inode_bitmap < 2 ^ 16
  pub blocks : IsDnodeBitmap t.dnode_bitmap

-- Every inode that is taken in the first bitmap is taken in the second.
abbrev pub Keeps : InodeTable → InodeTable → Type 0
Keeps t u = (i : ℕ) → bit t.inode_bitmap i ≡ 1 → bit u.inode_bitmap i ≡ 1
