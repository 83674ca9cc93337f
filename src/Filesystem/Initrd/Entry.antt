-- ===== src/Filesystem/Initrd/Entry.antt =====
-- One round of the loop of `initialise_initrd` in kernel/filesystem/initrd.c: a header and its entry.
use maken_os.Base.{
  ℕ, ◌+◌, ◌-◌, ◌%◌, ◌^◌, ◌≤◌, ◌<◌, ◌≡◌, refl, ◌∙◌, sym, ap, arith, ◌⊎◌, some, Memory, IsBytes,
  SameOutside, read_le, read_le_ext, write_le, write_le-SameOutside, write_le-IsBytes,
  read_le-write_le,
}
use maken_os.Klib.Str.Laws.{IsString, strcpy_lem}
use maken_os.Klib.Mem.Laws.{Copied}
use maken_os.Filesystem.Initrd.{header_name, header_offset, header_length, dirent_at, add_file}

-- File `k` between two memories: its entry has its name, of length `len`, and its number, and its
-- header the moved offset and the same length.
pub record File (location headers dirents k len : ℕ) (m m' : Memory) : Type 0 where
  pub string : IsString m' (dirent_at dirents (k + 2)) len
  pub name : (j : ℕ) → j < len → m' (dirent_at dirents (k + 2) + j) ≡ m (header_name headers k + j)
  pub ino : read_le 4 m' (dirent_at dirents (k + 2) + 128) ≡ (k + 2) % 2 ^ 32
  pub offset :
      read_le 8 m' (header_offset headers k)
      ≡ (read_le 8 m (header_offset headers k) + location) % 2 ^ 64
  pub length : read_le 8 m' (header_length headers k) ≡ read_le 8 m (header_length headers k)

-- The byte is not in the offset of header `k` and not in its entry.
abbrev pub IsApart : ℕ → ℕ → ℕ → ℕ → Type 0
IsApart headers dirents k b =
    ((b < header_offset headers k) ⊎ (header_offset headers k + 8 ≤ b))
    × ((b < dirent_at dirents (k + 2)) ⊎ (dirent_at dirents (k + 2) + 132 ≤ b))

module _ (location headers dirents k len : ℕ) where
  pub File-after :
      (m m1 m' : Memory)
      → ((b : ℕ)
          → dirent_at dirents (k + 2) ≤ b
          → b < dirent_at dirents (k + 2) + 132
          → m' b ≡ m1 b)
      → ((b : ℕ) → header_offset headers k ≤ b → b < header_offset headers k + 16 → m' b ≡ m1 b)
      → len < 64
      → File location headers dirents k len m m1
      → File location headers dirents k len m m'
  File-after m m1 m' same same_header short file = record {
    string = record {
      ends = same _ (omega arith) (omega arith) ∙ file.string.ends;
      inside = λ j lt e. file.string.inside j lt (sym (same _ (omega arith) (omega arith)) ∙ e);
    };
    name = λ j lt. same _ (omega arith) (omega arith) ∙ file.name j lt;
    ino = read_le_ext 4 m1 m' _ (λ b lo hi. same b (omega arith) (omega arith)) ∙ file.ino;
    offset =
        read_le_ext 8 m1 m' _ (λ b lo hi. same_header b (omega arith) (omega arith)) ∙ file.offset;
    length =
        read_le_ext 8 m1 m' _ (λ b lo hi. same_header b (omega arith) (omega arith)) ∙ file.length;
  }

  pub File-before :
      (m m1 m' : Memory)
      → ((b : ℕ) → header_name headers k ≤ b → b < header_name headers k + 87 → m1 b ≡ m b)
      → len < 64
      → File location headers dirents k len m1 m'
      → File location headers dirents k len m m'
  File-before m m1 m' same short file = record {
    string = file.string;
    name = λ j lt. file.name j lt ∙ same _ (omega arith) (omega arith);
    ino = file.ino;
    offset =
        file.offset
        ∙ ap (λ (t : ℕ). (t + location) % 2 ^ 64)
            (read_le_ext 8 m m1 _ (λ b lo hi. same b (omega arith) (omega arith)));
    length = file.length ∙ read_le_ext 8 m m1 _ (λ b lo hi. same b (omega arith) (omega arith));
  }

-- What the loop finds at file `k`: a name in its header, and an entry that is clear and apart.
pub record IsReady (headers dirents k len : ℕ) (m : Memory) : Type 0 where
  pub name : IsString m (header_name headers k) len
  pub short : len < 64
  pub clear :
      (b : ℕ) → dirent_at dirents (k + 2) ≤ b → b < dirent_at dirents (k + 2) + 132 → m b ≡ 0
  pub apart :
      (dirent_at dirents (k + 2) + 132 ≤ header_name headers k)
      ⊎ (header_name headers k + 87 ≤ dirent_at dirents (k + 2))

pub IsReady-same :
    (headers dirents k len : ℕ) (m m1 : Memory)
    → ((b : ℕ) → header_name headers k ≤ b → b < header_name headers k + 64 → m1 b ≡ m b)
    → ((b : ℕ) → dirent_at dirents (k + 2) ≤ b → b < dirent_at dirents (k + 2) + 132 → m1 b ≡ m b)
    → IsReady headers dirents k len m
    → IsReady headers dirents k len m1
IsReady-same headers dirents k len m m1 same same_entry ready = record {
  name = record {
    ends = same _ (omega arith) (omega (arith, ready.short)) ∙ ready.name.ends;
    inside = λ j lt e.
        ready.name.inside j lt (sym (same _ (omega arith) (omega (arith, ready.short))) ∙ e);
  };
  short = ready.short;
  clear = λ b lo hi. same_entry b lo hi ∙ ready.clear b lo hi;
  apart = ready.apart;
}

-- One round of the loop.
module _ (fuel location headers dirents k len : ℕ) (m : Memory) (small : IsBytes m)
    (ready : IsReady headers dirents k len m) (enough : len < fuel) where
  abbrev moved : ℕ
  moved = (read_le 8 m (header_offset headers k) + location) % 2 ^ 64

  abbrev m1 : Memory
  m1 = write_le 8 m (header_offset headers k) moved

  m1-same : SameOutside (header_offset headers k) 8 m m1
  m1-same = write_le-SameOutside 8 m (header_offset headers k) moved

  m1-IsReady : IsReady headers dirents k len m1
  m1-IsReady =
      IsReady-same headers dirents k len m m1 (λ b lo hi. m1-same b (omega arith))
        (λ b lo hi. m1-same b (omega (arith, ready.apart))) ready

  m1-IsBytes : IsBytes m1
  m1-IsBytes = write_le-IsBytes 8 (header_offset headers k) moved small

  -- The name is copied, and the number is written behind it.
  module _ (m2 : Memory)
      (copied : Copied (dirent_at dirents (k + 2)) (header_name headers k) len m1 m2)
      (string : IsString m2 (dirent_at dirents (k + 2)) len) where
    abbrev m3 : Memory
    m3 = write_le 4 m2 (dirent_at dirents (k + 2) + 128) ((k + 2) % 2 ^ 32)

    m3-same : SameOutside (dirent_at dirents (k + 2) + 128) 4 m2 m3
    m3-same = write_le-SameOutside 4 m2 (dirent_at dirents (k + 2) + 128) ((k + 2) % 2 ^ 32)

    m3-IsBytes : IsBytes m3
    m3-IsBytes = write_le-IsBytes 4 _ _ (λ b. ground (
      arith,
      copied b,
      m1-IsBytes b,
      m1-IsBytes (header_name headers k + (b - dirent_at dirents (k + 2))),
    ))

    outside : SameOutside (dirent_at dirents (k + 2)) 132 m1 m3
    outside b out = m3-same b (omega arith) ∙ ground (arith, copied b, ready.short)

    copied_at :
        (j : ℕ) → j < len → m2 (dirent_at dirents (k + 2) + j) ≡ m1 (header_name headers k + j)
    copied_at j lt = ground (arith, copied (dirent_at dirents (k + 2) + j))

    m3-File : File location headers dirents k len m m3
    m3-File = record {
      string = record {
        ends = m3-same _ (omega (arith, ready.short)) ∙ string.ends;
        inside = λ j lt e. string.inside j lt (sym (m3-same _ (omega (arith, ready.short))) ∙ e);
      };
      name = λ j lt.
          m3-same _ (omega (arith, ready.short))
          ∙ copied_at j lt
          ∙ m1-same _ (omega (arith, ready.short));
      ino = read_le-write_le 4 m2 _ _ (omega arith);
      offset =
          read_le_ext 8 m1 m3 _ (λ b lo hi. outside b (omega (arith, ready.apart)))
          ∙ read_le-write_le 8 m (header_offset headers k) moved (omega arith);
      length =
          read_le_ext 8 m1 m3 _ (λ b lo hi. outside b (omega (arith, ready.apart)))
          ∙ read_le_ext 8 m m1 _ (λ b lo hi. m1-same b (omega arith));
    }

  pub add_file-File :
      (m' : Memory) × (add_file fuel location headers dirents k m ≡ some m')
      × IsBytes m'
      × File location headers dirents k len m m'
      × ((b : ℕ) → IsApart headers dirents k b → m' b ≡ m b)
  unfolding add_file
  add_file-File =
      let (m2, runs, copied, terminated) =
        strcpy_lem fuel (dirent_at dirents (k + 2)) m1-IsBytes m1-IsReady.name
          (omega (arith, ready.short, ready.apart)) (omega (arith, ready.short)) in
      let string = terminated.1 (m1-IsReady.clear _ (omega arith) (omega (arith, ready.short))) in
      (
        m3 m2 copied string,
        rw runs refl,
        m3-IsBytes m2 copied string,
        m3-File m2 copied string,
        λ b out. outside m2 copied string b out.1 ∙ m1-same b out.0,
      )
