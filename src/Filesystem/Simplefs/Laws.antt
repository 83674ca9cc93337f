-- ===== src/Filesystem/Simplefs/Laws.antt =====
-- The data bitmap of kernel/filesystem/simplefs.c: the 32-bit shift in `f_malloc` limits it to
-- the first 32 of its 56 blocks.
use mathlib.Core.Path.{subst}
use native.Mathlib.Decide.{dec_lt}
use maken_os.Base.{
  ℕ, zero, suc, ◌+◌, ◌-◌, ◌^◌, ◌≤◌, ◌<◌, ◌≡◌, ◌≢◌, refl, ◌∙◌, sym, ap, arith, ◌&&◌, Option, none,
  some, Bool, true, inl, inr, Bool-cases, ◌==◌, ltb, if◌then◌else◌, bit_and, bit_or, ◌>>>◌, ◌>>=◌,
  bit, bit-le-one, bit-bit_or, shr-bit_and_one, bit_or-lt, two-pow-lt, bit-bit_or-pow_self,
  bit-bit_or-pow_ne,
}
use maken_os.Base.First.{First, nowhere, here, later}
use maken_os.Filesystem.Simplefs.{shifted_one, take_dnode}
use maken_os.Filesystem.Simplefs.Bitmap.{IsFree}

-- The bitmaps that `f_malloc` makes from an empty one: the bits from 31 on are equal.
pub record IsDnodeBitmap (bitmap : ℕ) : Type 0 where
  pub fits : bitmap < 2 ^ 64
  pub high : (j : ℕ) → 31 ≤ j → j < 64 → bit bitmap j ≡ bit bitmap 31

-- The bits of the widened `1 << 31`.
sign_bits : ℕ → Bool
sign_bits zero = true
sign_bits (suc n) = (bit (2 ^ 64 - 2 ^ 31) n == (if ltb n 31 then 0 else 1)) && sign_bits n

sign_bits_table : sign_bits 64 ≡ true
unfolding sign_bits bit
sign_bits_table = refl

sign_bits_lem :
    (n j : ℕ) → sign_bits n ≡ true → j < n → bit (2 ^ 64 - 2 ^ 31) j ≡ (if ltb j 31 then 0 else 1)
unfolding sign_bits
sign_bits_lem zero j h lt = absurd (omega arith)
sign_bits_lem (suc n) j h lt = ground (arith, sign_bits_lem n j)

-- What a call leaves: nothing changed, or a block below 32 taken whose bit was clear; at 31 every
-- bit from there on is taken with it.
abbrev pub Taken : ℕ → Option ℕ → ℕ → Type 0
Taken bitmap none bitmap' = bitmap' ≡ bitmap
Taken bitmap (some i) bitmap' =
    (i < 32)
    × (bit bitmap' i ≡ 1)
    × ((j : ℕ) → j < 31 → i ≢ j → bit bitmap' j ≡ bit bitmap j)
    × IsDnodeBitmap bitmap'

module _ (bitmap : ℕ) (v : IsDnodeBitmap bitmap) where
  Taken-low : (i : ℕ) → i < 31 → Taken bitmap (some i) (bit_or bitmap (2 ^ i))
  Taken-low i lt = (
    omega arith,
    bit-bit_or-pow_self bitmap i,
    λ j lt' ne. bit-bit_or-pow_ne bitmap i j ne,
    record {
      fits = bit_or-lt 64 bitmap (2 ^ i) v.fits (two-pow-lt i 64 (omega arith));
      high = λ j lo hi.
          bit-bit_or-pow_ne bitmap i j (omega arith)
          ∙ v.high j lo hi
          ∙ sym (bit-bit_or-pow_ne bitmap i 31 (omega arith));
    },
  )

  abbrev sign_word : ℕ
  sign_word = bit_or bitmap (2 ^ 64 - 2 ^ 31)

  sign_word_high : (j : ℕ) → 31 ≤ j → j < 64 → bit sign_word j ≡ 1
  sign_word_high j lo hi =
      bit-bit_or j bitmap (2 ^ 64 - 2 ^ 31)
      ∙ ground (arith, sign_bits_lem 64 j sign_bits_table hi, bit-le-one j bitmap)

  sign_word_low : (j : ℕ) → j < 31 → bit sign_word j ≡ bit bitmap j
  sign_word_low j lt =
      bit-bit_or j bitmap (2 ^ 64 - 2 ^ 31)
      ∙ ground (arith, sign_bits_lem 64 j sign_bits_table (omega arith))

  Taken-sign : Taken bitmap (some 31) sign_word
  Taken-sign = (
    omega arith,
    sign_word_high 31 (omega arith) (omega arith),
    λ j lt ne. sign_word_low j lt,
    record {
      fits = bit_or-lt 64 bitmap (2 ^ 64 - 2 ^ 31) v.fits (omega arith);
      high =
          λ j lo hi. sign_word_high j lo hi ∙ sym (sign_word_high 31 (omega arith) (omega arith));
    },
  )

shifted_one_low : (i : ℕ) → i < 31 → shifted_one i ≡ some (2 ^ i)
unfolding shifted_one
shifted_one_low i h = ground arith

-- The branch of a clear bit.
abbrev taking : ℕ → ℕ → Option (Option ℕ × ℕ)
taking i bitmap = do one ← shifted_one i; some (some i, bit_or bitmap one)

take_dnode_at :
    (i : ℕ) (bitmap : ℕ)
    → IsDnodeBitmap bitmap
    → i < 32
    → (bitmap' : ℕ) × (taking i bitmap ≡ some (some i, bitmap')) × Taken bitmap (some i) bitmap'
take_dnode_at i bitmap v h = elim (dec_lt i 31) [
  | yes low ↦ (bit_or bitmap (2 ^ i), rw (shifted_one_low i low), Taken-low bitmap v i low)
  | no at ↦
      let last : 31 ≡ i = omega arith in
      subst
        (λ (k : ℕ).
          (bitmap' : ℕ) × (taking k bitmap ≡ some (some k, bitmap'))
          × Taken bitmap (some k) bitmap')
        last (sign_word bitmap v, unfold shifted_one in refl, Taken-sign bitmap v)
]

past_suc :
    (i bitmap : ℕ)
    → (31 < i → bit bitmap 31 ≡ 1)
    → bit bitmap i ≡ 1
    → 31 < i + 1
    → bit bitmap 31 ≡ 1
past_suc i bitmap past one h = elim (dec_lt 31 i) [
  | yes behind ↦ past behind
  | no at ↦ let last : 31 ≡ i = omega arith in ap (bit bitmap) last ∙ one
]

take_dnode_from :
    (left i bitmap : ℕ)
    → IsDnodeBitmap bitmap
    → i + left ≡ 56
    → (31 < i → bit bitmap 31 ≡ 1)
    → (r : Option ℕ) × (bitmap' : ℕ) × (take_dnode left i bitmap ≡ some (r, bitmap'))
      × First (IsFree bitmap) left i r
      × Taken bitmap r bitmap'
unfolding take_dnode
take_dnode_from zero i bitmap v e past = (none, bitmap, refl, nowhere, refl)
take_dnode_from (suc left) i bitmap v e past = elim (Bool-cases (bit_and (bitmap >>> i) 1 == 0)) [
  | inl clear ↦
      let free : bit bitmap i ≡ 0 = ground (arith, shr-bit_and_one bitmap i, clear) in
      let low : i < 32 = ground (arith, past, v.high i) in
      let taken = take_dnode_at i bitmap v low in
      (some i, taken.0, rw clear taken.1, here free, taken.2)
  | inr set ↦
      let used : ¬ (bit bitmap i ≡ 0) = (λ free. ground (arith, shr-bit_and_one bitmap i, set)) in
      let one : bit bitmap i ≡ 1 = ground (arith, bit-le-one i bitmap, used) in
      let rest = take_dnode_from left (i + 1) bitmap v (omega arith) (past_suc i bitmap past one) in
      (rest.0, rest.1, rw set rest.2, later used rest.3, rest.4)
]

-- On a bitmap whose bits from 31 on are equal, the search of `f_malloc` makes no undefined shift:
-- it takes the lowest clear bit, which lies below 32, and leaves such a bitmap again, or it takes
-- nothing. So at most 32 of the 56 blocks are handed out.
pub take_dnode-First :
    (bitmap : ℕ)
    → IsDnodeBitmap bitmap
    → (r : Option ℕ) × (bitmap' : ℕ) × (take_dnode 56 0 bitmap ≡ some (r, bitmap'))
      × First (IsFree bitmap) 56 0 r
      × Taken bitmap r bitmap'
take_dnode-First bitmap v = take_dnode_from 56 0 bitmap v (omega arith) (λ h. absurd (omega arith))
