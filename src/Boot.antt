-- ===== src/Boot.antt =====
-- kernel/kernel.c: the loop of `_start` that lists the files of the root directory. What it writes on
-- the terminal is a list of texts; `none` means that the fuel of a loop ran out, that a call through
-- a pointer of a node does not return, or that `finddir_fs` returned NULL, which is not noticed.
pub mod Listing
pub mod Tables
pub mod Image
pub mod Start
use Prim.Native.String.{String}
use maken_os.Base.{
  ℕ, zero, suc, ◌+◌, Option, none, some, ◌>>=◌, ◌==◌, if◌then◌else◌, bit_and, List, [], ◌∷◌, ◌++◌,
  Memory,
}
use maken_os.Klib.Mem.{memset}
use maken_os.Klib.Str.{strlen}
use maken_os.Klib.Print.{bytes_at}
use maken_os.Filesystem.File.{FsNode, Calls, fs_directory, read_fs, readdir_fs, finddir_fs}

-- One call of `term_write`: a literal and its length, or bytes of memory.
pub data Text : Type 0 where
  literal : String → ℕ → Text
  bytes : List ℕ → Text

module _ {F : Type 0} (calls : Calls F Memory) (fuel buf : ℕ) where
  -- The branch of a file: up to 256 bytes of it, written as a string, and the buffer cleared.
  unfoldable pub show_contents : FsNode F → Memory → Option (List Text × Memory)
  show_contents node m = do
    (count, m1) ← read_fs calls node 0 256 buf m
    length ← strlen fuel buf m1
    some (
      literal "\n\t contents: \"" 14 ∷ bytes (bytes_at length buf m1) ∷ literal "\"\n" 2 ∷ [],
      memset buf 0 256 m1,
    )

  unfoldable pub show_node : Option (FsNode F) → Memory → Option (List Text × Memory)
  show_node none m = none
  show_node (some node) m =
      if bit_and node.flags 0x7 == fs_directory
      then some (literal "\n\t(directory)\n" 14 ∷ [], m)
      else show_contents node m

  -- One round of the loop, with the name that `readdir_fs` returned.
  unfoldable pub show_entry : FsNode F → ℕ → Memory → Option (List Text × Memory)
  show_entry root name m = do
    length ← strlen fuel name m
    node ← finddir_fs calls root name m
    (texts, m') ← show_node node m
    some (literal "Found file " 11 ∷ bytes (bytes_at length name m) ∷ texts, m')

  -- The body of the loop on what `readdir_fs` returned, with the rounds behind it.
  unfoldable pub show_next :
      FsNode F
      → Option ℕ
      → Memory
      → (Memory → Option (List Text × Memory))
      → Option (List Text × Memory)
  show_next root none m next = some ([], m)
  show_next root (some name) m next = do
    (texts, m1) ← show_entry root name m
    (rest, m2) ← next m1
    some (texts ++ rest, m2)

  -- The loop from index `i` on, with the number of its rounds as fuel.
  unfoldable pub list_from : ℕ → ℕ → FsNode F → Memory → Option (List Text × Memory)
  list_from zero i root m = none
  list_from (suc rounds) i root m = do
    name ← readdir_fs calls root i m
    show_next root name m (list_from rounds (i + 1) root)

  unfoldable pub list_files : ℕ → FsNode F → Memory → Option (List Text × Memory)
  list_files rounds root m = list_from rounds 0 root m
