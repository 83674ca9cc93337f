-- ===== src/Base/Bytes.antt =====
-- Physical memory as bytes at addresses, and little-endian words in it.
use Prim.Native.Nat.{ℕ, zero, suc, ◌+◌, ◌*◌, ◌/◌, ◌%◌, ◌^◌, ◌≤◌, ◌<◌}
use mathlib.Core.Path.{◌≡◌, refl, ap₂, ◌∙◌}
use mathlib.Core.Logic.{◌⊎◌, inl}
use native.Mathlib.Nat.{pow-suc}
use native.Mathlib.Omega.{arith}
use maken_os.Base.Tests.{◌==◌, if◌then◌else◌}

abbrev pub Memory : Type 0
Memory = ℕ → ℕ

abbrev pub store : Memory → ℕ → ℕ → Memory
store m a v b = if b == a then v % 256 else m b

abbrev pub IsBytes : Memory → Type 0
IsBytes m = (a : ℕ) → m a < 256

-- The two memories agree outside `[a, a + n)`.
abbrev pub SameOutside : ℕ → ℕ → Memory → Memory → Type 0
SameOutside a n m m' = (b : ℕ) → (b < a) ⊎ (a + n ≤ b) → m' b ≡ m b

-- The `n`-byte number at an address, lowest byte first.
unfoldable pub read_le : ℕ → Memory → ℕ → ℕ
read_le zero m a = 0
read_le (suc n) m a = m a + 256 * read_le n m (a + 1)

unfoldable pub write_le : ℕ → Memory → ℕ → ℕ → Memory
write_le zero m a v = m
write_le (suc n) m a v = write_le n (store m a v) (a + 1) (v / 256)

pub read_le_ext :
    (n : ℕ) (m m' : Memory) (a : ℕ)
    → ((b : ℕ) → a ≤ b → b < a + n → m' b ≡ m b)
    → read_le n m' a ≡ read_le n m a
unfolding read_le
read_le_ext zero m m' a same = refl
read_le_ext (suc n) m m' a same =
    ap₂ (λ (s t : ℕ). s + 256 * t) (same a (omega arith) (omega arith))
      (read_le_ext n m m' (a + 1) (λ b p q. same b (omega arith) (omega arith)))

pub write_le-SameOutside : (n : ℕ) (m : Memory) (a v : ℕ) → SameOutside a n m (write_le n m a v)
unfolding write_le
write_le-SameOutside zero m a v b out = refl
write_le-SameOutside (suc n) m a v b out =
    write_le-SameOutside n (store m a v) (a + 1) (v / 256) b (omega arith) ∙ ground arith

pub read_le-write_le :
    (n : ℕ) (m : Memory) (a v : ℕ) → v < 256 ^ n → read_le n (write_le n m a v) a ≡ v
unfolding read_le write_le
read_le-write_le zero m a v fits = omega arith
read_le-write_le (suc n) m a v fits = omega (
  arith,
  read_le-write_le n (store m a v) (a + 1) (v / 256) (omega (arith, pow-suc 256 n)),
  first,
)
  where
    first : write_le n (store m a v) (a + 1) (v / 256) a ≡ v % 256
    first =
        write_le-SameOutside n (store m a v) (a + 1) (v / 256) a (inl (omega arith)) ∙ ground arith

pub write_le-IsBytes : (n : ℕ) {m : Memory} (a v : ℕ) → IsBytes m → IsBytes (write_le n m a v)
unfolding write_le
write_le-IsBytes zero a v h = h
write_le-IsBytes (suc n) {m} a v h = write_le-IsBytes n (a + 1) (v / 256) (λ b. ground (arith, h b))

pub read_le-lt : (n : ℕ) {m : Memory} (a : ℕ) → IsBytes m → read_le n m a < 256 ^ n
unfolding read_le
read_le-lt zero a h = omega arith
read_le-lt (suc n) a h = omega (arith, h a, read_le-lt n (a + 1) h, pow-suc 256 n)

pub read_le-zeros :
    (n : ℕ) (m : Memory) (a : ℕ) → ((b : ℕ) → a ≤ b → b < a + n → m b ≡ 0) → read_le n m a ≡ 0
unfolding read_le
read_le-zeros zero m a zeros = refl
read_le-zeros (suc n) m a zeros = omega (
  arith,
  zeros a (omega arith) (omega arith),
  read_le-zeros n m (a + 1) (λ b p q. zeros b (omega arith) (omega arith)),
)
