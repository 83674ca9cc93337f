-- ===== src/Base/Bits.antt =====
-- `&`, `|` and shifts of machine words, read through the single bits of a number.
mod Step
use Step.{bit_or_step, bit_and_step}
use Prim.Native.Nat.{
  ℕ, zero, suc, ◌+◌, ◌-◌, ◌*◌, ◌/◌, ◌%◌, ◌^◌, ◌<◌, ◌≤◌, min, max, bit_and, bit_or,
}
use mathlib.Core.Path.{◌≡◌, refl, ap, ap₂, ◌∙◌, sym}
use mathlib.Core.Logic.{◌≢◌}
use native.Mathlib.Nat.{pow-suc, pow-succ', one-le-pow, div-one, div-div-eq-div-mul, div-add-mod'}
use native.Mathlib.Nat.{
  le_trans, pow-le-pow_right, mul-add-mod_self_right, mod-eq_of_lt, mod-lt, mod-one,
}
use native.Mathlib.Omega.{arith}

infixl 75 ◌<<<◌ ◌>>>◌
abbrev pub ◌<<<◌ : ℕ → ℕ → ℕ
x <<< k = x * 2 ^ k

abbrev pub ◌>>>◌ : ℕ → ℕ → ℕ
x >>> k = x / 2 ^ k

-- Bit `i`, counted from the lowest.
unfoldable pub bit : ℕ → ℕ → ℕ
bit x zero = x % 2
bit x (suc i) = bit (x / 2) i

pub bit-le-one : (i x : ℕ) → bit x i ≤ 1
unfolding bit
bit-le-one zero x = omega arith
bit-le-one (suc i) x = bit-le-one i (x / 2)

pub bit-bit_or : (i a b : ℕ) → bit (bit_or a b) i ≡ max (bit a i) (bit b i)
unfolding bit
bit-bit_or zero a b = omega (arith, bit_or_step a b)
bit-bit_or (suc i) a b =
    ap (λ (t : ℕ). bit t i) (omega (arith, bit_or_step a b)) ∙ bit-bit_or i (a / 2) (b / 2)

pub bit-bit_and : (i a b : ℕ) → bit (bit_and a b) i ≡ min (bit a i) (bit b i)
unfolding bit
bit-bit_and zero a b = omega (arith, bit_and_step a b)
bit-bit_and (suc i) a b =
    ap (λ (t : ℕ). bit t i) (omega (arith, bit_and_step a b)) ∙ bit-bit_and i (a / 2) (b / 2)

bit-zero : (i : ℕ) → bit 0 i ≡ 0
unfolding bit
bit-zero zero = refl
bit-zero (suc i) = bit-zero i

pub bit-pow_self : (k : ℕ) → bit (2 ^ k) k ≡ 1
unfolding bit
bit-pow_self zero = refl
bit-pow_self (suc k) = ap (λ (t : ℕ). bit t k) (omega (arith, pow-suc 2 k)) ∙ bit-pow_self k

pub bit-pow_ne : (k i : ℕ) → k ≢ i → bit (2 ^ k) i ≡ 0
unfolding bit
bit-pow_ne zero zero ne = absurd (ne refl)
bit-pow_ne zero (suc i) ne = bit-zero i
bit-pow_ne (suc k) zero ne = omega (arith, pow-suc 2 k)
bit-pow_ne (suc k) (suc i) ne =
    ap (λ (t : ℕ). bit t i) (omega (arith, pow-suc 2 k)) ∙ bit-pow_ne k i (λ e. ne (ap suc e))

-- Numbers with the same bits below the width are equal.
pub bit_ext : (w a b : ℕ) → a < 2 ^ w → b < 2 ^ w → ((i : ℕ) → bit a i ≡ bit b i) → a ≡ b
unfolding bit
bit_ext zero a b ha hb h = omega arith
bit_ext (suc w) a b ha hb h = omega (
  arith,
  h 0,
  bit_ext w (a / 2) (b / 2) (omega (arith, pow-suc 2 w)) (omega (arith, pow-suc 2 w))
      (λ i. h (suc i)),
)

bit_or-zero : (a : ℕ) → bit_or a 0 ≡ a
bit_or-zero a = bit_or-zero_below (suc a) a (omega arith)
  where
    bit_or-zero_below : (n b : ℕ) → b < n → bit_or b 0 ≡ b
    bit_or-zero_below zero b h = absurd (omega arith)
    bit_or-zero_below (suc n) zero h = refl
    bit_or-zero_below (suc n) (suc b) h =
        omega (arith, bit_or_step (suc b) 0, bit_or-zero_below n (suc b / 2) (omega arith))

pub zero_bit_and : (a : ℕ) → bit_and 0 a ≡ 0
zero_bit_and a = zero_below (suc a) a (omega arith)
  where
    zero_below : (n b : ℕ) → b < n → bit_and 0 b ≡ 0
    zero_below zero b h = absurd (omega arith)
    zero_below (suc n) zero h = refl
    zero_below (suc n) (suc b) h =
        omega (arith, bit_and_step 0 (suc b), zero_below n (suc b / 2) (omega arith))

bit_and-zero : (a : ℕ) → bit_and a 0 ≡ 0
bit_and-zero a = bit_and-zero_below (suc a) a (omega arith)
  where
    bit_and-zero_below : (n b : ℕ) → b < n → bit_and b 0 ≡ 0
    bit_and-zero_below zero b h = absurd (omega arith)
    bit_and-zero_below (suc n) zero h = refl
    bit_and-zero_below (suc n) (suc b) h =
        omega (arith, bit_and_step (suc b) 0, bit_and-zero_below n (suc b / 2) (omega arith))

-- `(x >> i) & 1`, the way the C code reads a bit.
pub bit-shr : (i x : ℕ) → (x >>> i) % 2 ≡ bit x i
unfolding bit
bit-shr zero x = ap (λ (t : ℕ). t % 2) (div-one x)
bit-shr (suc i) x =
    ap (λ (t : ℕ). t % 2)
      (ap (λ (t : ℕ). x / t) (pow-succ' 2 i) ∙ sym (div-div-eq-div-mul x 2 (2 ^ i)))
    ∙ bit-shr i (x / 2)

mod_double : (a m : ℕ) → 0 < m → a % (2 * m) ≡ a / 2 % m * 2 + a % 2
mod_double a m pos =
    ap (λ (t : ℕ). t % (2 * m)) split
    ∙ mul-add-mod_self_right (a / 2 / m) (2 * m) (a / 2 % m * 2 + a % 2)
    ∙ mod-eq_of_lt (omega (arith, mod-lt (a / 2) pos))
  where
    split : a ≡ a / 2 / m * (2 * m) + (a / 2 % m * 2 + a % 2)
    split = omega (arith, div-add-mod' (a / 2) m)

-- A mask of `k` low bits is the remainder by `2 ^ k`.
pub bit_and_mask : (k a : ℕ) → bit_and a (2 ^ k - 1) ≡ a % 2 ^ k
bit_and_mask zero a = omega (arith, bit_and-zero a, mod-one a)
bit_and_mask (suc k) a =
    bit_and_step a (2 ^ suc k - 1)
    ∙ ap₂ (λ (s t : ℕ). min (a % 2) t + 2 * bit_and (a / 2) s) half odd
    ∙ ap (λ (t : ℕ). min (a % 2) 1 + 2 * t) (bit_and_mask k (a / 2))
    ∙ omega (arith, mod_double a (2 ^ k) (one-le-pow k 2 (omega arith)))
    ∙ ap (λ (t : ℕ). a % t) (sym (pow-succ' 2 k))
  where
    half : (2 ^ suc k - 1) / 2 ≡ 2 ^ k - 1
    half = omega (arith, pow-suc 2 k, one-le-pow k 2 (omega arith))

    odd : (2 ^ suc k - 1) % 2 ≡ 1
    odd = omega (arith, pow-suc 2 k, one-le-pow k 2 (omega arith))

-- `(q << k) | r` is a sum where `r` fits the `k` low bits.
pub bit_or_disjoint : (k q r : ℕ) → r < 2 ^ k → bit_or (q <<< k) r ≡ q * 2 ^ k + r
bit_or_disjoint zero q r fits =
    let none_left : r ≡ 0 = omega arith in
    ap (bit_or (q * 2 ^ 0)) none_left ∙ bit_or-zero (q * 2 ^ 0) ∙ omega arith
bit_or_disjoint (suc k) q r fits =
    bit_or_step (q * 2 ^ suc k) r
    ∙ ap₂ (λ (s t : ℕ). max t (r % 2) + 2 * bit_or s (r / 2)) half even
    ∙ ap (λ (t : ℕ). max 0 (r % 2) + 2 * t)
        (bit_or_disjoint k q (r / 2) (omega (arith, pow-suc 2 k)))
    ∙ omega (arith, twice)
  where
    twice : q * 2 ^ suc k ≡ 2 * (q * 2 ^ k)
    twice = omega (arith, ap (λ (t : ℕ). q * t) (pow-suc 2 k))

    half : q * 2 ^ suc k / 2 ≡ q * 2 ^ k
    half = omega (arith, twice)

    even : q * 2 ^ suc k % 2 ≡ 0
    even = omega (arith, twice)

pub bit_and-mod_two : (a b : ℕ) → bit_and a b % 2 ≡ min (a % 2) (b % 2)
unfolding bit
bit_and-mod_two a b = bit-bit_and 0 a b

pub bit_or-lt : (w a b : ℕ) → a < 2 ^ w → b < 2 ^ w → bit_or a b < 2 ^ w
bit_or-lt zero a b ha hb =
    let none_a : a ≡ 0 = omega arith in
    let none_b : b ≡ 0 = omega arith in omega (arith, ap₂ bit_or none_a none_b, bit_or-zero 0)
bit_or-lt (suc w) a b ha hb = omega (
  arith,
  bit_or_step a b,
  pow-suc 2 w,
  bit_or-lt w (a / 2) (b / 2) (omega (arith, pow-suc 2 w)) (omega (arith, pow-suc 2 w)),
)

pub bit_of_lt : (i x : ℕ) → x < 2 ^ i → bit x i ≡ 0
unfolding bit
bit_of_lt zero x h = omega arith
bit_of_lt (suc i) x h = bit_of_lt i (x / 2) (omega (arith, pow-suc 2 i))

-- `(x >> i) & 1`
pub shr-bit_and_one : (x i : ℕ) → bit_and (x >>> i) 1 ≡ bit x i
shr-bit_and_one x i = bit_and_mask 1 (x >>> i) ∙ bit-shr i x

-- Setting bit `k` changes that bit alone.
pub bit-bit_or-pow_self : (x k : ℕ) → bit (bit_or x (2 ^ k)) k ≡ 1
bit-bit_or-pow_self x k = omega (arith, bit-bit_or k x (2 ^ k), bit-pow_self k, bit-le-one k x)

pub bit-bit_or-pow_ne : (x k i : ℕ) → k ≢ i → bit (bit_or x (2 ^ k)) i ≡ bit x i
bit-bit_or-pow_ne x k i ne = omega (arith, bit-bit_or i x (2 ^ k), bit-pow_ne k i ne)

pub two-pow-lt : (i w : ℕ) → i < w → 2 ^ i < 2 ^ w
two-pow-lt i w h =
    le_trans (omega (arith, pow-suc 2 i, one-le-pow i 2 (omega arith)))
      (pow-le-pow_right {n = 2} (omega arith) h)

-- A bit below the width survives a wrap.
pub bit-mod : (w x i : ℕ) → i < w → bit (x % 2 ^ w) i ≡ bit x i
unfolding bit
bit-mod zero x i h = absurd (omega arith)
bit-mod (suc w) x zero h = omega (
  arith,
  ap (λ (t : ℕ). x % t) (pow-succ' 2 w),
  mod_double x (2 ^ w) (one-le-pow w 2 (omega arith)),
)
bit-mod (suc w) x (suc i) h =
    let half : x % 2 ^ suc w / 2 ≡ x / 2 % 2 ^ w = omega (
      arith,
      ap (λ (t : ℕ). x % t) (pow-succ' 2 w),
      mod_double x (2 ^ w) (one-le-pow w 2 (omega arith)),
    ) in
    ap (λ (t : ℕ). bit t i) half ∙ bit-mod w (x / 2) i (omega arith)

bit_and_double : (a b : ℕ) → bit_and a (2 * b) ≡ 2 * bit_and (a / 2) b
bit_and_double a b =
    let half : 2 * b / 2 ≡ b = omega arith in
    let even : 2 * b % 2 ≡ 0 = omega arith in
    bit_and_step a (2 * b)
    ∙ ap₂ (λ (s t : ℕ). min (a % 2) t + 2 * bit_and (a / 2) s) half even
    ∙ omega arith

-- `x & (mask << k)`
pub bit_and_shifted : (k a b : ℕ) → bit_and a (b <<< k) ≡ bit_and (a >>> k) b <<< k
bit_and_shifted zero a b =
    let shut : b * 2 ^ 0 ≡ b = omega arith in
    ap (bit_and a) shut ∙ ap (λ (t : ℕ). bit_and t b) (sym (div-one a)) ∙ omega arith
bit_and_shifted (suc k) a b =
    let once : b * 2 ^ suc k ≡ 2 * (b * 2 ^ k) =
      omega (arith, ap (λ (t : ℕ). b * t) (pow-suc 2 k)) in
    let halves : a / 2 / 2 ^ k ≡ a / 2 ^ suc k =
      div-div-eq-div-mul a 2 (2 ^ k) ∙ ap (λ (t : ℕ). a / t) (sym (pow-succ' 2 k)) in
    ap (bit_and a) once
    ∙ bit_and_double a (b * 2 ^ k)
    ∙ ap (λ (t : ℕ). 2 * t) (bit_and_shifted k (a / 2) b)
    ∙ ap (λ (t : ℕ). 2 * (bit_and t b * 2 ^ k)) halves
    ∙ omega (arith, ap (λ (t : ℕ). bit_and (a / 2 ^ suc k) b * t) (pow-suc 2 k))

pub bit_or_comm : (w a b : ℕ) → a < 2 ^ w → b < 2 ^ w → bit_or a b ≡ bit_or b a
bit_or_comm w a b ha hb =
    bit_ext w (bit_or a b) (bit_or b a) (bit_or-lt w a b ha hb) (bit_or-lt w b a hb ha)
      (λ i. omega (arith, bit-bit_or i a b, bit-bit_or i b a))

pub shr-suc : (x i : ℕ) → (x >>> i) >>> 1 ≡ x >>> (i + 1)
shr-suc x i =
    let up : suc i ≡ i + 1 = omega arith in
    let more : 2 ^ i * 2 ^ 1 ≡ 2 ^ (i + 1) = omega (arith, pow-suc 2 i, ap (λ (t : ℕ). 2 ^ t) up) in
    div-div-eq-div-mul x (2 ^ i) (2 ^ 1) ∙ ap (λ (t : ℕ). x / t) more
