-- ===== src/Klib/Str/Laws.antt =====
-- strlen, strcmp and strcpy of kernel/lib/string.c on terminated strings.
use native.Mathlib.Decide.{dec_lt, ℕ_discrete}
use maken_os.Base.{
  ℕ, zero, suc, ◌+◌, ◌≤◌, ◌<◌, ◌≡◌, ◌≢◌, refl, ◌∙◌, ap, sym, ◌⊎◌, ◌↔◌, true, some, arith, Memory,
  IsBytes, ℤ, pos, is_zero, sub_char,
}
use maken_os.Klib.Mem.{copy_up}
use maken_os.Klib.Mem.Laws.{Copied, copy_up_all}
use maken_os.Klib.Str.{strlen_from, strlen, strcmp_from, strcmp, strcpy}

-- A string of `n` bytes and its terminator stand at `s`.
pub record IsString (m : Memory) (s n : ℕ) : Type 0 where
  pub ends : m (s + n) ≡ 0
  pub inside : (j : ℕ) → j < n → m (s + j) ≢ 0

IsString-end : {m : Memory} {s n : ℕ} → IsString m s n → (i : ℕ) → m (s + i) ≡ 0 → i ≤ n → i ≡ n
IsString-end {n} str i zero_here le = elim (dec_lt i n) [
  | yes below ↦ absurd (str.inside i below zero_here)
  | no at ↦ omega arith
]

IsString-more : {m : Memory} {s n : ℕ} → IsString m s n → (i : ℕ) → m (s + i) ≢ 0 → i ≤ n → i < n
IsString-more {m} {s} {n} str i more le = elim (dec_lt i n) [
  | yes below ↦ below
  | no at ↦
      let last : i ≡ n = omega arith in absurd (more (ap (λ (t : ℕ). m (s + t)) last ∙ str.ends))
]

strlen_from_lem :
    (fuel i n s : ℕ) (m : Memory)
    → IsString m s n
    → i ≤ n
    → n < fuel + i
    → strlen_from fuel i s m ≡ some n
unfolding strlen_from
strlen_from_lem zero i n s m str h enough = absurd (omega arith)
strlen_from_lem (suc fuel) i n s m str h enough = elim (dec_lt i n) [
  | yes more ↦
      ground (
        arith,
        str.inside i more,
        strlen_from_lem fuel (i + 1) n s m str (omega arith) (omega arith),
      )
  | no stop ↦
      let last : i ≡ n = omega arith in ground (arith, str.ends, ap (λ (t : ℕ). m (s + t)) last)
]

-- On a terminated string, with fuel beyond its length, `strlen` returns the number of bytes before
-- the terminator.
pub strlen_lem : (fuel n s : ℕ) (m : Memory) → IsString m s n → n < fuel → strlen fuel s m ≡ some n
unfolding strlen
strlen_lem fuel n s m str enough = strlen_from_lem fuel 0 n s m str (omega arith) (omega arith)

-- The two strings are the same.
abbrev pub SameStrings : ℕ → ℕ → ℕ → ℕ → Memory → Type 0
SameStrings s1 n1 s2 n2 m = (n1 ≡ n2) × ((j : ℕ) → j < n1 → m (s1 + j) ≡ m (s2 + j))

sub_char-zero_iff : (a b : ℕ) → a < 256 → b < 256 → (is_zero (sub_char a b) ≡ true) ↔ (a ≡ b)
sub_char-zero_iff a b ha hb = ground arith

module _ {m : Memory} (bytes : IsBytes m) {s1 n1 s2 n2 : ℕ} (a : IsString m s1 n1)
    (b : IsString m s2 n2) where
  same_up_to :
      (i : ℕ)
      → m (s1 + i) ≡ m (s2 + i)
      → ((j : ℕ) → j < i → m (s1 + j) ≡ m (s2 + j))
      → (j : ℕ) → j < i + 1
      → m (s1 + j) ≡ m (s2 + j)
  same_up_to i here before j lt = elim (dec_lt j i) [
    | yes below ↦ before j below
    | no at ↦ let last : j ≡ i = omega arith in rw last here
  ]

  -- With the terminators, the same strings agree at every index up to the length.
  same_everywhere : SameStrings s1 n1 s2 n2 m → (i : ℕ) → i ≤ n1 → m (s1 + i) ≡ m (s2 + i)
  same_everywhere same i le = elim (dec_lt i n1) [
    | yes below ↦ same.1 i below
    | no at ↦
        let last1 : i ≡ n1 = omega arith in
        let last2 : i ≡ n2 = last1 ∙ same.0 in
        ap (λ (t : ℕ). m (s1 + t)) last1 ∙ a.ends ∙ sym (ap (λ (t : ℕ). m (s2 + t)) last2 ∙ b.ends)
  ]

  -- From index `i` on, the bytes below it being equal.
  strcmp_from_lem :
      (fuel i : ℕ)
      → i ≤ n1
      → i ≤ n2
      → n1 < fuel + i
      → ((j : ℕ) → j < i → m (s1 + j) ≡ m (s2 + j))
      → (r : ℤ) × (strcmp_from fuel i s1 s2 m ≡ some r)
        × ((is_zero r ≡ true) ↔ SameStrings s1 n1 s2 n2 m)
  unfolding strcmp_from
  strcmp_from_lem zero i h1 h2 enough before = absurd (omega arith)
  strcmp_from_lem (suc fuel) i h1 h2 enough before = elim (ℕ_discrete (m (s1 + i)) (m (s2 + i))) [
    | yes equal ↦ elim (ℕ_discrete (m (s1 + i)) 0) [
      | yes stop ↦
          let end1 : i ≡ n1 = IsString-end a i stop h1 in
          let end2 : i ≡ n2 = IsString-end b i (ground arith) h2 in
          (pos 0, ground arith, (λ _. (omega arith, λ j lt. before j (omega arith)), λ _. refl))
      | no more ↦
          let more1 : i < n1 = IsString-more a i more h1 in
          let more2 : i < n2 = IsString-more b i (λ e. more (equal ∙ e)) h2 in
          let before' = same_up_to i equal before in
          let later =
            strcmp_from_lem fuel (i + 1) (omega arith) (omega arith) (omega arith) before' in
          (later.0, ground (arith, later.1), later.2)
    ]
    | no differ ↦
        let characters = sub_char-zero_iff (m (s1 + i)) (m (s2 + i)) (bytes _) (bytes _) in
        (
          sub_char (m (s1 + i)) (m (s2 + i)),
          ground arith,
          (
            λ z. absurd (differ (characters.0 z)),
            λ same. absurd (differ (same_everywhere same i h1)),
          ),
        )
  ]

  -- On two terminated strings, with fuel beyond the length of the first, `strcmp` ends, and is 0
  -- exactly if they are equal.
  pub strcmp-zero_iff :
      (fuel : ℕ)
      → n1 < fuel
      → (r : ℤ) × (strcmp fuel s1 s2 m ≡ some r) × ((is_zero r ≡ true) ↔ SameStrings s1 n1 s2 n2 m)
  unfolding strcmp
  strcmp-zero_iff fuel enough =
      strcmp_from_lem fuel 0 (omega arith) (omega arith) (omega arith)
        (λ j lt. absurd (omega arith))

-- With fuel beyond its length, `strcpy` copies the bytes of a terminated string that its
-- destination does not overlap, and changes nothing else. It does not write the terminator: the
-- copy is a string exactly where the byte behind it was 0 before.
pub strcpy_lem :
    {m : Memory} {source n : ℕ} (fuel destination : ℕ)
    → IsBytes m
    → IsString m source n
    → (destination + n < source) ⊎ (source + n < destination)
    → n < fuel
    → (m' : Memory) × (strcpy fuel destination source m ≡ some m')
      × Copied destination source n m m'
      × (IsString m' destination n ↔ (m (destination + n) ≡ 0))
unfolding strcpy
strcpy_lem {m} {source} {n} fuel destination bytes str apart enough =
    let m' : Memory = copy_up n 0 destination source m in
    let copied = copy_up_all n destination source m bytes (ground arith) in
    let behind : m' (destination + n) ≡ m (destination + n) =
      ground (arith, copied (destination + n)) in
    (
      m',
      rw (strlen_lem fuel n source m str enough),
      copied,
      (
        λ copy. sym behind ∙ copy.ends,
        λ zero_behind. record {
          ends = behind ∙ zero_behind;
          inside = λ j lt e. str.inside j lt (sym (copied_at copied j lt) ∙ e);
        },
      ),
    )
  where
    copied_at :
        {m1 : Memory}
        → Copied destination source n m m1
        → (j : ℕ) → j < n
        → m1 (destination + j) ≡ m (source + j)
    copied_at copied j lt = copied (destination + j) ∙ ground arith
