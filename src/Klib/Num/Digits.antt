-- ===== src/Klib/Num/Digits.antt =====
-- The digits that the loop of `uint64toa` writes, lowest first, and the number that they stand for.
use native.Mathlib.Nat.{
  pow-suc, pow-zero, mul_comm, mod-lt, div-lt_iff_lt-mul, le_trans, mul-le-mul_left, div-add-mod,
  div-eq_of_lt,
}
use native.Mathlib.Decide.{dec_lt, ℕ_discrete}
use maken_os.Base.{
  ℕ, zero, suc, ◌+◌, ◌-◌, ◌*◌, ◌/◌, ◌%◌, ◌^◌, ◌≤◌, ◌<◌, ◌≡◌, ◌≢◌, refl, ◌∙◌, ap, ap₂, some, arith,
  Memory, store, IsBytes, SameOutside,
}
use maken_os.Klib.Num.{digits_from}

-- The number whose `n` digits stand from `a` on, the lowest first.
unfoldable pub lowest_first : ℕ → ℕ → ℕ → Memory → ℕ
lowest_first zero base a m = 0
lowest_first (suc n) base a m = (m a - b'0') + base * lowest_first n base (a + 1) m

-- The same with the highest first, as a reader takes them.
unfoldable pub highest_first : ℕ → ℕ → ℕ → Memory → ℕ
highest_first zero base a m = 0
highest_first (suc n) base a m = highest_first n base a m * base + (m (a + n) - b'0')

pub lowest_first_ext :
    (n base a : ℕ) (m m' : Memory)
    → ((b : ℕ) → a ≤ b → b < a + n → m' b ≡ m b)
    → lowest_first n base a m' ≡ lowest_first n base a m
unfolding lowest_first
lowest_first_ext zero base a m m' same = refl
lowest_first_ext (suc n) base a m m' same =
    ap₂ (λ (s t : ℕ). (s - b'0') + base * t) (same a (omega arith) (omega arith))
      (lowest_first_ext n base (a + 1) m m' (λ b p q. same b (omega arith) (omega arith)))

-- Reading the digits from the other end gives the same number.
pub highest_first_reversed :
    (n base a b : ℕ) (m m' : Memory)
    → ((j : ℕ) → j < n → m' (a + j) ≡ m (b + (n - 1 - j)))
    → highest_first n base a m' ≡ lowest_first n base b m
unfolding lowest_first highest_first
highest_first_reversed zero base a b m m' turned = refl
highest_first_reversed (suc n) base a b m m' turned =
    ap₂ (λ (s t : ℕ). s * base + (t - b'0'))
      (highest_first_reversed n base a (b + 1) m m' λ j lt.
        let at : b + (suc n - 1 - j) ≡ b + 1 + (n - 1 - j) = omega arith in
        turned j (omega arith) ∙ ap m at)
      (let at : b + (suc n - 1 - n) ≡ b = omega arith in turned n (omega arith) ∙ ap m at)
    ∙ ground (arith, mul_comm (lowest_first n base (b + 1) m) base)

abbrev pub IsDigit : ℕ → ℕ → Type 0
IsDigit base c = (b'0' ≤ c) × (c < b'0' + base)

-- What the loop leaves, started at index `i` and stopped before index `stop`.
pub record Written (value base i str : ℕ) (m : Memory) (stop : ℕ) (m' : Memory) : Type 0 where
  pub some_digit : i < stop
  pub same : SameOutside (str + i) (stop - i) m m'
  pub digit : (j : ℕ) → i ≤ j → j < stop → IsDigit base (m' (str + j))
  pub number : lowest_first (stop - i) base (str + i) m' ≡ value
  pub no_leading_zero : 0 < value → m' (str + (stop - 1)) ≢ b'0'
  pub short : (k : ℕ) → value < base ^ suc k → stop ≤ i + suc k

div-lt-pow : (value base k : ℕ) → 2 ≤ base → value < 2 ^ suc k → value / base < 2 ^ k
div-lt-pow value base k lo fits =
    (div-lt_iff_lt-mul {x = value} {y = 2 ^ k} (omega arith)).1
      (le_trans (omega (arith, pow-suc 2 k)) (mul-le-mul_left (2 ^ k) lo))

pos_of_lt-pow : (v k : ℕ) → 0 < v → v < 2 ^ k → 0 < k
pos_of_lt-pow v zero pos fits = omega arith
pos_of_lt-pow v (suc k) pos fits = omega arith

module _ (value base i str : ℕ) (m : Memory) (lo : 2 ≤ base) (hi : base ≤ 10) where
  abbrev first_store : Memory
  first_store = store m (str + i) (value % base + b'0')

  digit-lt : value % base < base
  digit-lt = mod-lt value (omega arith)

  back : i + 1 - 1 ≡ i
  back = omega arith

  number_last : value / base ≡ 0 → lowest_first (i + 1 - i) base (str + i) first_store ≡ value
  unfolding lowest_first
  number_last last =
      let one_digit : i + 1 - i ≡ suc zero = omega arith in
      ap (λ (t : ℕ). lowest_first t base (str + i) first_store) one_digit
      ∙ ground (arith, div-add-mod value base, digit-lt)

  number_first :
      (stop : ℕ) (m' : Memory)
      → i + 1 < stop
      → m' (str + i) ≡ value % base + b'0'
      → lowest_first (stop - (i + 1)) base (str + (i + 1)) m' ≡ value / base
      → lowest_first (stop - i) base (str + i) m' ≡ value
  unfolding lowest_first
  number_first stop m' more here rest =
      let count : stop - i ≡ suc (stop - (i + 1)) = omega arith in
      let next : str + i + 1 ≡ str + (i + 1) = omega arith in
      ap (λ (t : ℕ). lowest_first t base (str + i) m') count
      ∙ ap (λ (t : ℕ). (m' (str + i) - b'0') + base * lowest_first (stop - (i + 1)) base t m') next
      ∙ ap₂ (λ (s t : ℕ). (s - b'0') + base * t) here rest
      ∙ omega (arith, div-add-mod value base)

  short_first :
      (k stop : ℕ)
      → 0 < value / base
      → value < base ^ suc k
      → ((j : ℕ) → value / base < base ^ suc j → stop ≤ i + 1 + suc j)
      → stop ≤ i + suc k
  short_first zero stop more lt w = absurd (omega (arith, div-eq_of_lt one_digit))
    where
      one_digit : value < base
      one_digit = omega (arith, pow-suc base 0, ap (λ (t : ℕ). t * base) (pow-zero base))
  short_first (suc k) stop more lt w = omega (arith, w k fewer)
    where
      fewer : value / base < base ^ suc k
      fewer =
          (div-lt_iff_lt-mul {x = value} {y = base ^ suc k} (omega arith)).1
            (rw (pow-suc base (suc k)) at lt)

  Written-last : value / base ≡ 0 → Written value base i str m (i + 1) first_store
  Written-last last = record {
    some_digit = omega arith;
    same = λ b out. ground arith;
    digit = λ j p q. let here : j ≡ i = omega arith in rw here (ground (arith, digit-lt));
    number = number_last last;
    no_leading_zero = λ pos zero_digit.
        ground
          (arith, div-add-mod value base, digit-lt, ap (λ (t : ℕ). first_store (str + t)) back);
    short = λ k lt. omega arith;
  }

  Written-first :
      {stop : ℕ} {m' : Memory}
      → 0 < value / base
      → Written (value / base) base (i + 1) str first_store stop m'
      → Written value base i str m stop m'
  Written-first {stop} {m'} more w =
      let first_digit : m' (str + i) ≡ value % base + b'0' =
        ground (arith, w.same (str + i), digit-lt) in
      record {
        some_digit = omega (arith, w.some_digit);
        same = λ b out. ground (arith, w.same b, w.some_digit);
        digit = λ j p q. elim (ℕ_discrete i j) [
          | yes here ↦ rw (← here) (ground (arith, first_digit, digit-lt))
          | no later ↦ w.digit j (omega arith) q
        ];
        number = number_first stop m' w.some_digit first_digit w.number;
        no_leading_zero = λ pos. w.no_leading_zero more;
        short = λ k lt. short_first k stop more lt w.short;
      }

pub digits_from-Written :
    (fuel value base i str : ℕ) (m : Memory)
    → 2 ≤ base
    → base ≤ 10
    → value < 2 ^ fuel
    → 0 < fuel
    → IsBytes m
    → (stop : ℕ) × (m' : Memory) × (digits_from fuel value base i str m ≡ some (stop, m'))
      × Written value base i str m stop m'
      × IsBytes m'
unfolding digits_from
digits_from-Written zero value base i str m lo hi fits pos h = absurd (omega arith)
digits_from-Written (suc fuel) value base i str m lo hi fits pos h =
    let m1 : Memory = store m (str + i) (value % base + b'0') in
    elim (dec_lt 0 (value / base)) [
      | yes more ↦
          let smaller = div-lt-pow value base fuel lo fits in
          let later =
            digits_from-Written fuel (value / base) base (i + 1) str m1 lo hi smaller
              (pos_of_lt-pow (value / base) fuel more smaller) (λ a. ground (arith, h a)) in
          (
            later.0,
            later.1,
            ground (arith, later.2),
            Written-first value base i str m lo hi more later.3,
            later.4,
          )
      | no last ↦ (
        i + 1,
        m1,
        ground arith,
        Written-last value base i str m lo hi (omega arith),
        λ a. ground (arith, h a),
      )
    ]
