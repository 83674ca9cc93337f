-- ===== src/Klib/Num/Laws.antt =====
-- `uint64toa` of kernel/lib/stdlib.c writes the digits of its number, highest first.
use native.Mathlib.Nat.{pow-suc, pow-zero, pow-le-pow_left, le_trans, add-zero, mul-le-mul_right}
use maken_os.Base.{
  ℕ, zero, suc, ◌+◌, ◌-◌, ◌^◌, ◌≤◌, ◌<◌, ◌≡◌, ◌≢◌, ◌∙◌, sym, ap, ap₂, some, arith, Memory, store,
  IsBytes, SameOutside,
}
use maken_os.Klib.Str.Laws.{IsString}
use maken_os.Klib.Str.Reverse.{Reversed, reverse-Reversed}
use maken_os.Klib.Num.{digits_from, uint64toa}
use maken_os.Klib.Num.Digits.{
  IsDigit, highest_first, lowest_first, highest_first_reversed, Written, digits_from-Written,
}

-- The `n` digits of `value` stand at `str`, highest first and with their terminator, and nothing
-- else of `m` has changed.
pub record Printed (base value str : ℕ) (m : Memory) (n : ℕ) (m' : Memory) : Type 0 where
  pub string : IsString m' str n
  pub digit : (j : ℕ) → j < n → IsDigit base (m' (str + j))
  pub number : highest_first n base str m' ≡ value
  pub no_leading_zero : 0 < value → m' str ≢ b'0'
  pub fits : value < base ^ n
  pub short : (k : ℕ) → value < base ^ suc k → n ≤ suc k
  pub same : SameOutside str (n + 1) m m'

highest_first-lt :
    (n base a : ℕ) (m : Memory)
    → 2 ≤ base
    → ((j : ℕ) → j < n → IsDigit base (m (a + j)))
    → highest_first n base a m < base ^ n
unfolding highest_first
highest_first-lt zero base a m lo digits = omega (arith, pow-zero base)
highest_first-lt (suc n) base a m lo digits =
    let before = highest_first-lt n base a m lo (λ j lt. digits j (omega arith)) in
    let scaled = mul-le-mul_right base before in
    omega (arith, digits n (omega arith), pow-suc base n, scaled)

module _ (value base str : ℕ) (m : Memory) {stop : ℕ} {m1 : Memory} (lo : 2 ≤ base)
    (w : Written value base 0 str m stop m1) where
  abbrev pub ended : Memory
  ended = store m1 (str + stop) 0

  pub ended-IsString : IsString ended str stop
  ended-IsString = record {
    ends = ground arith;
    inside = λ j lt e. ground (arith, w.digit j (omega arith) lt);
  }

  -- The digits in the opposite order from `a` on.
  module _ (a : ℕ) (m0 m2 : Memory)
      (at : (j : ℕ) → j < stop → m2 (a + j) ≡ m1 (str + (stop - 1 - j))) where
    written-IsDigit : (j : ℕ) → j < stop → IsDigit base (m2 (a + j))
    written-IsDigit j lt = rw (at j lt) (w.digit (stop - 1 - j) (omega arith) (omega arith))

    number_at : highest_first stop base a m2 ≡ value
    number_at =
        highest_first_reversed stop base a str m1 m2 at
        ∙ ap₂ (λ (s t : ℕ). lowest_first s base t m1) (omega arith) (omega arith)
        ∙ w.number

    first_at : m2 a ≡ m1 (str + (stop - 1))
    first_at = ground (arith, w.some_digit, at 0, ap m2 (add-zero a))

    pub Printed-of_turned :
        m2 (a + stop) ≡ 0 → SameOutside a (stop + 1) m0 m2 → Printed base value a m0 stop m2
    Printed-of_turned ends same = record {
      string = record { ends = ends; inside = λ j lt e. ground (arith, written-IsDigit j lt) };
      digit = written-IsDigit;
      number = number_at;
      no_leading_zero = λ pos e. w.no_leading_zero pos (sym first_at ∙ e);
      fits = rw (← number_at) (highest_first-lt stop base a m2 lo written-IsDigit);
      short = λ k lt. omega (arith, w.short k lt);
      same = same;
    }

  pub Printed-of_Written :
      (m2 : Memory) → Reversed 0 stop str ended m2 → Printed base value str m stop m2
  Printed-of_Written m2 turned =
      Printed-of_turned str m m2 (λ j lt. turned (str + j) ∙ ground arith)
        (ground (arith, turned (str + stop))) (λ b out. ground (arith, turned b, w.same b))

pub digits-le :
    (bits : ℕ) {value base str stop : ℕ} {m m1 : Memory}
    → 0 < bits
    → value < 2 ^ bits
    → 2 ≤ base
    → Written value base 0 str m stop m1
    → stop ≤ bits
digits-le zero pos fits lo w = absurd (omega arith)
digits-le (suc k) pos fits lo w =
    omega (arith, w.short k (le_trans fits (pow-le-pow_left lo (suc k))))

uint64toa_of_digits :
    (bits value str base : ℕ) (m : Memory) (stop : ℕ) (m1 : Memory)
    → digits_from (suc bits) value base 0 str m ≡ some (stop, m1)
    → 0 < bits
    → value < 2 ^ bits
    → 2 ≤ base
    → Written value base 0 str m stop m1
    → IsBytes m1
    → (n : ℕ) × (m' : Memory) × (uint64toa (suc bits) value str base m ≡ some m')
      × Printed base value str m n m'
unfolding uint64toa
uint64toa_of_digits bits value str base m stop m1 runs pos fits lo w h1 =
    let done =
      reverse-Reversed (suc bits) stop str (ended value base str m lo w) (λ a. ground (arith, h1 a))
        (ended-IsString value base str m lo w) (omega (arith, digits-le bits pos fits lo w)) in
    (stop, done.0, rw runs done.1, Printed-of_Written value base str m lo w done.0 done.2)

-- In a base from 2 to 10, with fuel for one digit more than the number has bits, `uint64toa` ends:
-- the digits of the number stand at the address, highest first and terminated, and nothing else
-- has changed.
pub uint64toa-Printed :
    (bits value str base : ℕ) (m : Memory)
    → 0 < bits
    → value < 2 ^ bits
    → 2 ≤ base
    → base ≤ 10
    → IsBytes m
    → (n : ℕ) × (m' : Memory) × (uint64toa (suc bits) value str base m ≡ some m')
      × Printed base value str m n m'
uint64toa-Printed bits value str base m pos fits lo hi h =
    let digits =
      digits_from-Written (suc bits) value base 0 str m lo hi (omega (arith, pow-suc 2 bits))
        (omega arith) h in
    uint64toa_of_digits bits value str base m digits.0 digits.1 digits.2 pos fits lo digits.3
      digits.4
