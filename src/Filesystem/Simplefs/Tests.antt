-- ===== src/Filesystem/Simplefs/Tests.antt =====
-- Runs of kernel/filesystem/simplefs.c on tables in which the first inodes and blocks are taken.
use maken_os.Base.{ℕ, ◌≡◌, arith, ◌∙◌, sym, Option, some, [], bit_of_lt, two-pow-lt}
use maken_os.Base.First.{First}
use maken_os.Filesystem.Simplefs.{InodeTable, take_dnode}
use maken_os.Filesystem.Simplefs.Bitmap.{IsFree}
use maken_os.Filesystem.Simplefs.Reach.{Reach}
use maken_os.Filesystem.Simplefs.Laws.{IsDnodeBitmap, Taken, take_dnode-First}

abbrev used : InodeTable
used = record {
  v = record { id = 0; length = 0; inode_len = 0; data_blocks = 4 };
  inode_bitmap = 3;
  dnode_bitmap = 3;
  inodes = [];
}

low_bitmap : IsDnodeBitmap 3
low_bitmap = record {
  fits = omega arith;
  high = λ j lo hi.
      bit_of_lt j 3 (omega (arith, two-pow-lt 2 j (omega arith)))
      ∙ sym (bit_of_lt 31 3 (omega arith));
}

take_dnode-First_example :
    (r : Option ℕ) × (bitmap' : ℕ) × (take_dnode 56 0 3 ≡ some (r, bitmap'))
    × First (IsFree 3) 56 0 r
    × Taken 3 r bitmap'
take_dnode-First_example = take_dnode-First 3 low_bitmap
