-- ===== src/Boot/Image/Tests.antt =====
-- A boot on an image of one file: kernel/filesystem/initrd.c and kernel/kernel.c.
use maken_os.Base.{
  ℕ, zero, suc, ◌<◌, ◌≡◌, ◌≢◌, refl, ap, arith, inl, inr, ◌==◌, if◌then◌else◌, leb, ltb, ◌&&◌, some,
  List, [], ◌∷◌, Memory, read_le, write_le,
}
use maken_os.Klib.Mem.{memset}
use maken_os.Klib.Print.{bytes_at}
use maken_os.Klib.Str.Laws.{IsString}
use maken_os.Memory.Pmm.{MemmapEntry, take_block, b_malloc, k_malloc}
use maken_os.Filesystem.Initrd.{
  Initrd, header_name, directory_node, initrd_calls, initialise_initrd,
}
use maken_os.Filesystem.Initrd.Mount.{IsImage}
use maken_os.Boot.{list_files}
use maken_os.Boot.Image.{name_of, IsTextFile}
use maken_os.Boot.Image.Shown.{IsBootable, image_texts, initialise_initrd-image_texts}

abbrev usable : MemmapEntry
usable = record { base = 0x1000; length = 0x2000; kind = 0 }

-- One file, "a", of five bytes at 0x1000 in an image at 0x100000.
abbrev image : Memory
image a =
    if a == 0x100000
    then 1
    else if a == 0x100009
    then 97
    else if a == 0x100051
    then 0x10
    else if a == 0x100058
    then 5
    else if leb 0x101000 a && ltb a 0x101005
    then 33
    else 0

abbrev one_byte : ℕ → ℕ
one_byte k = 1

image-IsImage : IsImage 0x100000 1 one_byte image
unfolding read_le
image-IsImage = record { count = refl; names = names; short = λ k lt. omega arith }
  where
    names : (k : ℕ) → k < 1 → IsString image (header_name 0x100008 k) 1
    names zero lt = record { ends = refl; inside = λ j lt e. ground arith }
    names (suc k) lt = absurd (omega arith)

abbrev nodes_placed : Memory
nodes_placed = (take_block 0x1000 264 image).1

first : k_malloc 2 usable 264 image ≡ some (some 0x1008, nodes_placed)
unfolding k_malloc b_malloc take_block read_le
first = refl

second :
    k_malloc 2 usable 396 nodes_placed ≡ some (some 0x9008, (take_block 0x9000 396 nodes_placed).1)
unfolding k_malloc b_malloc take_block read_le write_le memset
second = refl

first_byte : List ℕ → ℕ
first_byte [] = 0
first_byte (c ∷ cs) = c

different :
    (i j : ℕ)
    → i < j
    → j < 3
    → name_of 0x100000 one_byte image j ≢ name_of 0x100000 one_byte image i
unfolding name_of first_byte bytes_at
different zero (suc zero) lt within same = ground (arith, ap first_byte same)
different zero (suc (suc zero)) lt within same = ground (arith, ap first_byte same)
different (suc zero) (suc (suc zero)) lt within same = ground (arith, ap first_byte same)
different zero zero lt within same = absurd (omega arith)
different (suc i) zero lt within same = absurd (omega arith)
different (suc i) (suc zero) lt within same = absurd (omega arith)
different (suc (suc i)) (suc (suc zero)) lt within same = absurd (omega arith)
different i (suc (suc (suc j))) lt within same = absurd (omega arith)

texts : (k : ℕ) → k < 1 → IsTextFile usable 0x100000 1 0x200000 image k
unfolding read_le
texts zero lt = record {
  short = ground arith;
  nonzero = λ j lt e. ground arith;
  beyond_entry = inr (ground arith);
  beyond_headers = inr (ground arith);
  beyond_buffer = inl (ground arith);
}
texts (suc k) lt = absurd (omega arith)

image-IsBootable : IsBootable 1 usable 0x100000 1 0x200000 one_byte image
image-IsBootable = record {
  small = λ a. ground arith;
  image = image-IsImage;
  few = omega arith;
  covered_names = λ k lt. omega arith;
  room = omega arith;
  fits = omega arith;
  covered = omega arith;
  apart = inr (omega arith);
  different = different;
  texts = texts;
  clear = λ b lo hi. ground arith;
  buffer_beyond = inr (omega arith);
  buffer_apart = inr (omega arith);
}

initialise_initrd-image_texts_example :
    (disk : Initrd) × (m' : Memory) × (initialise_initrd 2 usable 0x100000 image ≡ some (disk, m'))
    × (list_files (initrd_calls 256 disk) 256 0x200000 4 (directory_node 0) m'
        ≡ some (image_texts 3 0 0x100000 one_byte image, m'))
initialise_initrd-image_texts_example =
    initialise_initrd-image_texts 1 usable 0x100000 1 0x200000 256 one_byte (some 0x1008) 0x9008
      image nodes_placed (take_block 0x9000 396 nodes_placed).1 image-IsBootable first second
      (omega arith)
