-- ===== src/Filesystem/Initrd/Names.antt =====
-- The names of the directories in `initialise_initrd` of kernel/filesystem/initrd.c.
use maken_os.Base.{
  ℕ, zero, suc, ◌+◌, ◌<◌, ◌≡◌, ◌≢◌, refl, ◌∙◌, sym, ap, ap₂, arith, inl, List, [], ◌∷◌, length,
  Memory, store, IsBytes, SameOutside, write_le-SameOutside, write_le-IsBytes,
}
use maken_os.Klib.Str.Laws.{IsString}
use maken_os.Klib.Print.{bytes_at}
use maken_os.Klib.Print.Laws.{bytes_at_ext}
use maken_os.Filesystem.Initrd.{dirent_at, store_bytes, name_directory}

-- The bytes of a literal, none of them 0.
unfoldable pub AreChars : List ℕ → Type 0
AreChars [] = Unit
AreChars (c ∷ cs) = (c ≢ 0) × (c < 256) × AreChars cs

store_bytes-SameOutside :
    (cs : List ℕ) (a : ℕ) (m : Memory) → SameOutside a (length cs) m (store_bytes a cs m)
unfolding store_bytes
store_bytes-SameOutside [] a m b out = refl
store_bytes-SameOutside (c ∷ cs) a m b out =
    store_bytes-SameOutside cs (a + 1) (store m a c) b (omega arith) ∙ ground arith

store_bytes-IsBytes : (cs : List ℕ) (a : ℕ) (m : Memory) → IsBytes m → IsBytes (store_bytes a cs m)
unfolding store_bytes
store_bytes-IsBytes [] a m small = small
store_bytes-IsBytes (c ∷ cs) a m small =
    store_bytes-IsBytes cs (a + 1) (store m a c) (λ b. ground (arith, small b))

store_bytes-inside :
    (cs : List ℕ) (a : ℕ) (m : Memory)
    → AreChars cs
    → (j : ℕ) → j < length cs
    → store_bytes a cs m (a + j) ≢ 0
unfolding store_bytes AreChars
store_bytes-inside [] a m chars j lt e = absurd (omega arith)
store_bytes-inside (c ∷ cs) a m chars zero lt e =
    let here : a + 0 ≡ a = omega arith in
    ground (
      arith,
      chars.0,
      chars.1,
      e,
      ap (store_bytes (a + 1) cs (store m a c)) here,
      store_bytes-SameOutside cs (a + 1) (store m a c) a (inl (omega arith)),
    )
store_bytes-inside (c ∷ cs) a m chars (suc j) lt e =
    let there : a + 1 + j ≡ a + suc j = omega arith in
    store_bytes-inside cs (a + 1) (store m a c) chars.2 j (omega arith)
      (ap (store_bytes (a + 1) cs (store m a c)) there ∙ e)

store_bytes-bytes_at :
    (cs : List ℕ) (a : ℕ) (m : Memory)
    → AreChars cs
    → bytes_at (length cs) a (store_bytes a cs m) ≡ cs
unfolding store_bytes AreChars bytes_at
store_bytes-bytes_at [] a m chars = refl
store_bytes-bytes_at (c ∷ cs) a m chars =
    ap₂ (λ (x : ℕ) (xs : List ℕ). x ∷ xs)
      (store_bytes-SameOutside cs (a + 1) (store m a c) a (inl (omega arith))
        ∙ ground (arith, chars.1))
      (store_bytes-bytes_at cs (a + 1) (store m a c) chars.2)

-- A clear entry gets a terminated name.
module _ (dirents i : ℕ) (name : List ℕ) (m : Memory) (short : length name < 128)
    (chars : AreChars name) where
  abbrev stored : Memory
  stored = store_bytes (dirent_at dirents i) name m

  number-same : SameOutside (dirent_at dirents i + 128) 4 stored (name_directory dirents i name m)
  unfolding name_directory
  number-same = write_le-SameOutside 4 stored (dirent_at dirents i + 128) i

  pub name_directory-SameOutside :
      SameOutside (dirent_at dirents i) 132 m (name_directory dirents i name m)
  name_directory-SameOutside b out =
      number-same b (omega arith)
      ∙ store_bytes-SameOutside name (dirent_at dirents i) m b (omega arith)

  pub name_directory-IsBytes : IsBytes m → IsBytes (name_directory dirents i name m)
  unfolding name_directory
  name_directory-IsBytes small =
      write_le-IsBytes 4 (dirent_at dirents i + 128) i
        (store_bytes-IsBytes name (dirent_at dirents i) m small)

  pub name_directory-IsString :
      m (dirent_at dirents i + length name) ≡ 0
      → IsString (name_directory dirents i name m) (dirent_at dirents i) (length name)
  name_directory-IsString clear = record {
    ends =
        number-same _ (omega arith)
        ∙ store_bytes-SameOutside name (dirent_at dirents i) m _ (omega arith)
        ∙ clear;
    inside = λ j lt e.
        store_bytes-inside name (dirent_at dirents i) m chars j lt
          (sym (number-same _ (omega arith)) ∙ e);
  }

  pub name_directory-bytes_at :
      bytes_at (length name) (dirent_at dirents i) (name_directory dirents i name m) ≡ name
  name_directory-bytes_at =
      bytes_at_ext (length name) (dirent_at dirents i) (dirent_at dirents i) _ stored
        (λ j lt. number-same _ (omega arith))
      ∙ store_bytes-bytes_at name (dirent_at dirents i) m chars
