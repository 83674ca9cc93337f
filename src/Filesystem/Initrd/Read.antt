-- ===== src/Filesystem/Initrd/Read.antt =====
-- `initrd_read` of kernel/filesystem/initrd.c: reads stay inside the file.
use native.Mathlib.Nat.{mod-eq_of_lt}
use maken_os.Base.{
  ℕ, ◌+◌, ◌-◌, ◌%◌, ◌^◌, ◌≤◌, ◌<◌, ◌≡◌, arith, ◌⊎◌, inl, inr, Bool-cases, ltb→lt, min, some, ltb,
  Memory, IsBytes, read_le,
}
use maken_os.Klib.Mem.{memcpy}
use maken_os.Klib.Mem.Laws.{Copied, memcpy-Copied}
use maken_os.Filesystem.File.{read_fs}
use maken_os.Filesystem.Initrd.{
  Initrd, Node, initrd_read_fn, header_offset, header_length, initrd_read, initrd_calls,
}

-- The file header of a node.
abbrev pub header_index : Node → ℕ
header_index node = (node.inode + 2 ^ 32 - 2) % 2 ^ 32

abbrev pub file_length : Initrd → Node → Memory → ℕ
file_length disk node m = read_le 8 m (header_length disk.file_headers (header_index node))

abbrev pub file_start : Initrd → Node → Memory → ℕ
file_start disk node m = read_le 8 m (header_offset disk.file_headers (header_index node))

-- What the theorem below says of a result, with the parts of the header as plain numbers.
abbrev ReadResult : ℕ → ℕ → ℕ → ℕ → ℕ → Memory → ℕ × Memory → Type 0
ReadResult start length offset size buffer m (count, m') =
    (count ≡ min size (length - offset)) × Copied buffer (start + offset) count m m'

past_end :
    (start length offset size buffer : ℕ) (m : Memory)
    → length < offset
    → ReadResult start length offset size buffer m (0, m)
past_end start length offset size buffer m past = (omega arith, λ b. ground arith)

inside_file :
    (start length offset size buffer count : ℕ) (m : Memory)
    → IsBytes m
    → offset ≤ length
    → (buffer ≤ start + offset) ⊎ (start + length ≤ buffer)
    → count ≡ min size (length - offset)
    → ReadResult start length offset size buffer m (count, memcpy buffer (start + offset) count m)
inside_file start length offset size buffer count m bytes within apart e =
    (e, memcpy-Copied buffer (start + offset) count m bytes (omega arith))

-- A read of up to `size` bytes at an offset returns what is left of the file from there, `size` at
-- most, copies exactly those bytes of the file into the buffer and changes nothing else, provided
-- that the end of the read does not wrap and the file does not start below a buffer that it
-- overlaps.
pub initrd_read-Copied :
    (disk : Initrd) (node : Node) (offset size buffer : ℕ) (m : Memory)
    → IsBytes m
    → offset + size < 2 ^ 64
    → (buffer ≤ file_start disk node m + offset)
      ⊎ (file_start disk node m + file_length disk node m ≤ buffer)
    → let (count, m') = initrd_read disk node offset size buffer m in
      (count ≡ min size (file_length disk node m - offset))
      × Copied buffer (file_start disk node m + offset) count m m'
unfolding initrd_read
initrd_read-Copied disk node offset size buffer m bytes no_wrap apart =
    elim (Bool-cases (ltb length offset)) [
      | inl past ↦ rw past (past_end start length offset size buffer m (ltb→lt length offset past))
      | inr within ↦ rw within (
          inside_file start length offset size buffer _ m bytes (ground arith) apart (ground arith))
    ]
  where
    length : ℕ
    length = file_length disk node m

    start : ℕ
    start = file_start disk node m

-- Every file node reads through `read_fs`, which hands the request to `initrd_read`.
pub read_fs-initrd :
    (fuel : ℕ) (disk : Initrd) (node : Node) (offset size buffer : ℕ) (m : Memory)
    → node.read ≡ some initrd_read_fn
    → size < 2 ^ 32
    → read_fs (initrd_calls fuel disk) node offset size buffer m
      ≡ some (initrd_read disk node offset size buffer m)
unfolding read_fs
read_fs-initrd fuel disk node offset size buffer m e h = rw (e, mod-eq_of_lt h)
