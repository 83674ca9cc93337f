-- ===== src/Klib/Num/Signed.antt =====
-- `itoa` of kernel/lib/stdlib.c on an `int`.
use native.Mathlib.Decide.{dec_lt}
use maken_os.Base.{
  ℕ, ◌+◌, ◌-◌, ◌^◌, ◌≤◌, ◌<◌, ◌≡◌, ◌∙◌, some, none, arith, Memory, store, IsBytes, if◌then◌else◌,
  ◌==◌, ℤ, pos, negsuc,
}
use maken_os.Klib.Str.Laws.{IsString}
use maken_os.Klib.Str.Reverse.{Reversed, reverse-Reversed}
use maken_os.Klib.Num.{itoa}
use maken_os.Klib.Num.Digits.{Written, digits_from-Written}
use maken_os.Klib.Num.Laws.{
  Printed, ended, ended-IsString, Printed-of_Written, Printed-of_turned, digits-le,
}

-- The values of an `int` that are not its least one.
abbrev pub IsSymmetricInt : ℤ → Type 0
IsSymmetricInt (pos n) = n < 2 ^ 31
IsSymmetricInt (negsuc n) = n + 1 < 2 ^ 31

-- The `n` digits of the value, behind a minus sign where it is negative.
abbrev pub PrintedInt : ℕ → ℤ → ℕ → Memory → ℕ → Memory → Type 0
PrintedInt base (pos v) str m n m' = Printed base v str m n m'
PrintedInt base (negsuc v) str m n m' = Printed base (v + 1) (str + 1) (store m str b'-') n m'

module _ (value base str : ℕ) (m : Memory) {stop : ℕ} {m1 : Memory} (lo : 2 ≤ base)
    (w : Written value base 0 str m stop m1) where
  abbrev signed : Memory
  signed = store (store m1 (str + stop) b'-') (str + (stop + 1)) 0

  signed-IsString : IsString signed str (stop + 1)
  signed-IsString = record {
    ends = ground arith;
    inside = λ j lt e. elim (dec_lt j stop) [
      | yes digit ↦ ground (arith, w.digit j (omega arith) digit)
      | no sign ↦ ground arith
    ];
  }

  Printed-of_signed :
      (m2 : Memory)
      → Reversed 0 (stop + 1) str signed m2
      → Printed base value (str + 1) (store m str b'-') stop m2
  Printed-of_signed m2 turned =
      Printed-of_turned value base str m lo w (str + 1) (store m str b'-') m2
        (λ j lt. turned (str + 1 + j) ∙ ground arith) (ground (arith, turned (str + 1 + stop)))
        (λ b out. ground (arith, turned b, w.same b))

module _ (str base : ℕ) (m : Memory) (lo : 2 ≤ base) (hi : base ≤ 10) (h : IsBytes m) where
  itoa-pos :
      (v : ℕ)
      → v < 2 ^ 31
      → (n : ℕ) × (m' : Memory) × (itoa 33 (pos v) str base m ≡ some m') × Printed base v str m n m'
  unfolding itoa
  itoa-pos v fits =
      let digits = digits_from-Written 33 v base 0 str m lo hi (omega arith) (omega arith) h in
      let w = digits.3 in
      let few = digits-le 31 (omega arith) fits lo w in
      let done =
        reverse-Reversed 33 digits.0 str (ended v base str m lo w) (λ a. ground (arith, digits.4 a))
          (ended-IsString v base str m lo w) (omega arith) in
      (digits.0, done.0, rw digits.2 done.1, Printed-of_Written v base str m lo w done.0 done.2)

  itoa-negsuc :
      (v : ℕ)
      → v + 1 < 2 ^ 31
      → (n : ℕ) × (m' : Memory) × (itoa 33 (negsuc v) str base m ≡ some m')
        × Printed base (v + 1) (str + 1) (store m str b'-') n m'
  unfolding itoa
  itoa-negsuc v fits =
      let digits =
        digits_from-Written 33 (v + 1) base 0 str m lo hi (omega arith) (omega arith) h in
      let w = digits.3 in
      let few = digits-le 31 (omega arith) fits lo w in
      let not_least : (if v == 2 ^ 31 - 1 then none else some (v + 1)) ≡ some (v + 1) =
        ground arith in
      let done =
        reverse-Reversed 33 (digits.0 + 1) str (signed (v + 1) base str m lo w)
          (λ a. ground (arith, digits.4 a)) (signed-IsString (v + 1) base str m lo w)
          (omega arith) in
      (
        digits.0,
        done.0,
        rw (not_least, digits.2) done.1,
        Printed-of_signed (v + 1) base str m lo w done.0 done.2,
      )

-- In a base from 2 to 10, with fuel 33, `itoa` of any `int` but the least one ends: the digits of its
-- absolute value stand at the address, or behind a minus sign there where it is negative, highest
-- first and terminated, and nothing else has changed.
pub itoa-PrintedInt :
    (value : ℤ) (str base : ℕ) (m : Memory)
    → IsSymmetricInt value
    → 2 ≤ base
    → base ≤ 10
    → IsBytes m
    → (n : ℕ) × (m' : Memory) × (itoa 33 value str base m ≡ some m')
      × PrintedInt base value str m n m'
itoa-PrintedInt (pos v) str base m fits lo hi h = itoa-pos str base m lo hi h v fits
itoa-PrintedInt (negsuc v) str base m fits lo hi h = itoa-negsuc str base m lo hi h v fits
