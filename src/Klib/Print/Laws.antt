-- ===== src/Klib/Print/Laws.antt =====
-- The text that `printNumber` of kernel/lib/print.c writes, and the bytes of its buffer.
use native.Mathlib.Nat.{pow-suc, pow-zero, pow-le-pow_right}
use native.Mathlib.Decide.{dec_le}
use maken_os.Base.{
  ℕ, zero, suc, ◌+◌, ◌-◌, ◌*◌, ◌^◌, ◌≤◌, ◌<◌, ◌≡◌, refl, sym, ◌∙◌, ap, ap₂, arith, List, [], ◌∷◌,
  ◌++◌, some, Memory, IsBytes, SameOutside,
}
use maken_os.Klib.Str.Laws.{strlen_lem}
use maken_os.Klib.Num.Digits.{IsDigit, highest_first}
use maken_os.Klib.Num.Laws.{uint64toa-Printed}
use maken_os.Klib.Print.{bytes_at, print_number}

-- The number that a decimal text stands for, after digits that stand for `before`.
pub read_decimal : ℕ → List ℕ → ℕ
read_decimal before [] = before
read_decimal before (c ∷ text) = read_decimal (before * 10 + (c - b'0')) text

pub AreDigits : List ℕ → Type 0
AreDigits [] = Unit
AreDigits (c ∷ text) = IsDigit 10 c × AreDigits text

-- The same bytes in two places.
pub bytes_at_ext :
    (n a a' : ℕ) (m m' : Memory)
    → ((j : ℕ) → j < n → m (a + j) ≡ m' (a' + j))
    → bytes_at n a m ≡ bytes_at n a' m'
unfolding bytes_at
bytes_at_ext zero a a' m m' same = refl
bytes_at_ext (suc n) a a' m m' same =
    let first : m a ≡ m' a' = here (same 0 (omega arith)) in
    ap₂ (λ (c : ℕ) (cs : List ℕ). c ∷ cs) first
      (bytes_at_ext n (a + 1) (a' + 1) m m' (λ j lt. next j (same (suc j) (omega arith))))
  where
    here : m (a + 0) ≡ m' (a' + 0) → m a ≡ m' a'
    here e =
        let left : a + 0 ≡ a = omega arith in
        let right : a' + 0 ≡ a' = omega arith in sym (ap m left) ∙ e ∙ ap m' right

    next : (j : ℕ) → m (a + suc j) ≡ m' (a' + suc j) → m (a + 1 + j) ≡ m' (a' + 1 + j)
    next j e =
        let left : a + 1 + j ≡ a + suc j = omega arith in
        let right : a' + 1 + j ≡ a' + suc j = omega arith in ap m left ∙ e ∙ sym (ap m' right)

highest_first-suc :
    (n a : ℕ) (m : Memory)
    → highest_first (suc n) 10 a m ≡ (m a - b'0') * 10 ^ n + highest_first n 10 (a + 1) m
unfolding highest_first
highest_first-suc zero a m =
    let here : a + 0 ≡ a = omega arith in
    ap (λ (t : ℕ). 0 * 10 + (m t - b'0')) here ∙ omega (arith, pow-zero 10)
highest_first-suc (suc n) a m =
    let last : a + suc n ≡ a + 1 + n = omega arith in
    ap₂ (λ (s t : ℕ). s * 10 + (m t - b'0')) (highest_first-suc n a m) last
    ∙ omega (arith, ap (λ (t : ℕ). (m a - b'0') * t) (pow-suc 10 n))

read_decimal-bytes_at :
    (n a before : ℕ) (m : Memory)
    → read_decimal before (bytes_at n a m) ≡ before * 10 ^ n + highest_first n 10 a m
unfolding read_decimal bytes_at highest_first
read_decimal-bytes_at zero a before m = omega (arith, ap (λ (t : ℕ). before * t) (pow-zero 10))
read_decimal-bytes_at (suc n) a before m =
    read_decimal-bytes_at n (a + 1) (before * 10 + (m a - b'0')) m
    ∙ omega (arith, highest_first-suc n a m, ap (λ (t : ℕ). before * t) (pow-suc 10 n))

AreDigits-bytes_at :
    (n a : ℕ) (m : Memory) → ((j : ℕ) → j < n → IsDigit 10 (m (a + j))) → AreDigits (bytes_at n a m)
unfolding AreDigits bytes_at
AreDigits-bytes_at zero a m digit = tt
AreDigits-bytes_at (suc n) a m digit =
    let here : a + 0 ≡ a = omega arith in
    let first = digit 0 (omega arith) in
    (
      ground (arith, first, ap m here),
      AreDigits-bytes_at n (a + 1) m (λ j lt.
          let at : a + suc j ≡ a + 1 + j = omega arith in
          let d = digit (suc j) (omega arith) in ground (arith, d, ap m at)),
    )

-- The digits of a 64-bit number: at most 20, and 20 exactly from 10^19 on.
digit_count :
    (num n : ℕ)
    → num < 2 ^ 64
    → num < 10 ^ n
    → ((k : ℕ) → num < 10 ^ suc k → n ≤ suc k)
    → (n ≤ 20) × (num < 10 ^ 19 → n ≤ 19) × (10 ^ 19 ≤ num → n ≡ 20)
digit_count num n small fits short = (most, λ below. short 18 below, λ large. exactly large)
  where
    most : n ≤ 20
    most = short 19 (omega arith)

    exactly : 10 ^ 19 ≤ num → n ≡ 20
    exactly large = elim (dec_le n 19) [
      | yes few ↦
          let bound : 10 ^ n ≤ 10 ^ 19 = pow-le-pow_right {n = 10} (omega arith) few in
          absurd (omega (arith, bound))
      | no many ↦ omega (arith, most)
    ]

-- With fuel for 65 rounds, `printNumber` of a 64-bit number writes a text of digits that stands for
-- the number, and a line end. The bytes that it changes lie in its buffer of twenty bytes for a
-- number below 10^19; for every other one the terminator is written behind the buffer.
pub print_number-text :
    (num x : ℕ) (m : Memory)
    → num < 2 ^ 64
    → IsBytes m
    → (text : List ℕ) × (m' : Memory) × (print_number 65 num x m ≡ some (text ++ (b'\n' ∷ []), m'))
      × AreDigits text
      × (read_decimal 0 text ≡ num)
      × (num < 10 ^ 19 → SameOutside x 20 m m')
      × (10 ^ 19 ≤ num → (m' (x + 20) ≡ 0) × SameOutside x 21 m m')
unfolding print_number
print_number-text num x m small h =
    let (n, m', runs, printed) =
      uint64toa-Printed 64 num x 10 m (omega arith) small (omega arith) (omega arith) h in
    let count = digit_count num n small printed.fits printed.short in
    (
      bytes_at n x m',
      m',
      rw (runs, strlen_lem 65 n x m' printed.string (omega arith)) refl,
      AreDigits-bytes_at n x m' printed.digit,
      read_decimal-bytes_at n x 0 m' ∙ omega (arith, printed.number),
      λ below b out. printed.same b (omega (arith, count.1 below)),
      λ large. (
        ap (λ (t : ℕ). m' (x + t)) (sym (count.2 large)) ∙ printed.string.ends,
        λ b out. printed.same b (omega (arith, count.2 large)),
      ),
    )
