-- ===== src/Filesystem/Initrd/Tests.antt =====
-- Runs of kernel/filesystem/initrd.c on a disk of two files.
use maken_os.Base.{
  ℕ, zero, suc, ◌+◌, ◌-◌, ◌<◌, ◌≡◌, refl, arith, inr, min, ◌&&◌, ltb, leb, ◌==◌, if◌then◌else◌,
  none, some, [], ◌∷◌, get_elem?, Memory, IsBytes, read_le,
}
use maken_os.Klib.Mem.Laws.{Copied}
use maken_os.Filesystem.File.{fs_file}
use maken_os.Filesystem.Initrd.{
  Initrd, Node, initrd_read_fn, initrd_read, initrd_readdir, initrd_finddir,
}
use maken_os.Filesystem.Initrd.Read.{file_start, file_length, initrd_read-Copied}
use maken_os.Filesystem.Initrd.Find.{AreNamed, HasName, finddir-readdir}

abbrev file : ℕ → Node
file i = record {
  flags = fs_file;
  mask = 0;
  uid = 0;
  gid = 0;
  inode = i;
  length = 0;
  impl = 0;
  read = some initrd_read_fn;
  write = none;
  opener = none;
  close = none;
  readdir = none;
  finddir = none;
  ptr = 0;
}

abbrev disk : Initrd
disk = record {
  root_dirents = 1000;
  root_nodes = file 2 ∷ file 3 ∷ [];
  file_headers = 100;
  nroot_nodes = 2;
}

-- The names "a" and "b", and a first file of 5 bytes at 500.
abbrev image : Memory
image a =
    if a == 1000
    then 97
    else if a == 1132
    then 98
    else if a == 172
    then 244
    else if a == 173
    then 1
    else if a == 180
    then 5
    else if leb 500 a && ltb a 505
    then 33
    else 0

image-IsBytes : IsBytes image
image-IsBytes a = ground arith

initrd_read-Copied_example :
    let (count, m') = initrd_read disk (file 2) 2 10 600 image in
    (count ≡ min 10 (file_length disk (file 2) image - 2))
    × Copied 600 (file_start disk (file 2) image + 2) count image m'
unfolding read_le
initrd_read-Copied_example =
    initrd_read-Copied disk (file 2) 2 10 600 image image-IsBytes (omega arith) (inr (ground arith))

-- Both names have one byte.
abbrev one_byte : ℕ → ℕ
one_byte i = 1

names : AreNamed one_byte 1000 2 image
names zero h = record { ends = refl; inside = λ j lt e. ground arith }
names (suc zero) h = record { ends = refl; inside = λ j lt e. ground arith }
names (suc (suc i)) h = absurd (omega arith)

finddir-readdir_example :
    (name : ℕ) × (initrd_readdir disk 1 ≡ some name)
    × (initrd_finddir 2 disk name image ≡ some (get_elem? disk.root_nodes 1))
finddir-readdir_example =
    finddir-readdir 2 disk one_byte 1 image image-IsBytes names (λ i lt. omega arith) (omega arith)
      (λ i lt same. other_name i lt same)
  where
    other_name : (i : ℕ) → i < 1 → HasName one_byte 1000 1132 1 image i → ⊥
    other_name zero lt same = ground (arith, same.1 0 (omega arith))
    other_name (suc i) lt same = absurd (omega arith)
