-- ===== src/Devices/Serial/Receive.antt =====
-- Receiving a string on the serial port: `readSerialString` of kernel/devices/serial.c.
use mathlib.Core.Path.{subst₂}
use maken_os.Base.{
  ℕ, zero, suc, ◌+◌, ◌*◌, ◌≤◌, ◌<◌, ◌≡◌, refl, ◌∙◌, ap, ap₂, arith, false, lt→ltb, le→ltb, ◌⊎◌, inl,
  inr, some, ◌==◌, List, [], ◌∷◌, length, get_elem?, eq_of_some, Memory, store, SameOutside,
}
use maken_os.Sys.{Machine, Kernel}
use maken_os.Devices.Serial.{read_serial, read_string_from, read_serial_string}

-- What stands in the buffer: the characters at the even places, what was there before at the odd
-- ones, and the terminator behind the last gap.
pub record Spaced (buffer : ℕ) (cs : List ℕ) (m m' : Memory) : Type 0 where
  pub char : (j c : ℕ) → get_elem? cs j ≡ some c → m' (buffer + 2 * j) ≡ c
  pub gap : (j : ℕ) → j < length cs → m' (buffer + 2 * j + 1) ≡ m (buffer + 2 * j + 1)
  pub ends : m' (buffer + 2 * length cs) ≡ 0
  pub same : SameOutside buffer (2 * length cs + 1) m m'

-- Characters that are not 0.
unfoldable pub AreChars : List ℕ → Type 0
AreChars [] = Unit
AreChars (c ∷ cs) = (0 < c) × (c < 256) × AreChars cs

spread : ℕ → List ℕ → Memory → Memory
spread a [] m = m
spread a (c ∷ cs) m = spread (a + 2) cs (store m a c)

spread-below : (a : ℕ) (cs : List ℕ) (m : Memory) (b : ℕ) → b < a → spread a cs m b ≡ m b
unfolding spread
spread-below a [] m b lt = refl
spread-below a (c ∷ cs) m b lt =
    spread-below (a + 2) cs (store m a c) b (omega arith) ∙ ground arith

spread-above :
    (a : ℕ) (cs : List ℕ) (m : Memory) (b : ℕ) → a + 2 * length cs ≤ b → spread a cs m b ≡ m b
unfolding spread
spread-above a [] m b ge = refl
spread-above a (c ∷ cs) m b ge =
    spread-above (a + 2) cs (store m a c) b (omega arith) ∙ ground arith

spread-gap :
    (a : ℕ) (cs : List ℕ) (m : Memory) (j : ℕ) → spread a cs m (a + 2 * j + 1) ≡ m (a + 2 * j + 1)
unfolding spread
spread-gap a [] m j = refl
spread-gap a (c ∷ cs) m zero =
    spread-below (a + 2) cs (store m a c) (a + 2 * 0 + 1) (omega arith) ∙ ground arith
spread-gap a (c ∷ cs) m (suc j) =
    let at : a + 2 * suc j + 1 ≡ a + 2 + 2 * j + 1 = omega arith in
    ap (spread (a + 2) cs (store m a c)) at ∙ spread-gap (a + 2) cs (store m a c) j ∙ ground arith

spread-char :
    (a : ℕ) (cs : List ℕ) (m : Memory) (j c : ℕ)
    → AreChars cs
    → get_elem? cs j ≡ some c
    → spread a cs m (a + 2 * j) ≡ c
unfolding spread AreChars
spread-char a [] m j c chars found = ground arith
spread-char a (d ∷ cs) m zero c (pos, small, rest) found =
    spread-below (a + 2) cs (store m a d) (a + 2 * 0) (omega arith)
    ∙ ground (arith, eq_of_some found)
spread-char a (d ∷ cs) m (suc j) c (pos, small, rest) found =
    let at : a + 2 * suc j ≡ a + 2 + 2 * j = omega arith in
    ap (spread (a + 2) cs (store m a d)) at ∙ spread-char (a + 2) cs (store m a d) j c rest found

index-lt : (cs : List ℕ) (j : ℕ) {c : ℕ} → get_elem? cs j ≡ some c → j < length cs
index-lt [] j found = ground arith
index-lt (d ∷ cs) zero found = omega arith
index-lt (d ∷ cs) (suc j) found = omega (arith, index-lt cs j found)

spread-Spaced :
    (buffer : ℕ) (cs : List ℕ) (m : Memory)
    → AreChars cs
    → Spaced buffer cs m (store (spread buffer cs m) (buffer + 2 * length cs) 0)
spread-Spaced buffer cs m chars = record {
  char = λ j c found. ground (arith, index-lt cs j found, spread-char buffer cs m j c chars found);
  gap = λ j lt. ground (arith, spread-gap buffer cs m j);
  ends = ground arith;
  same = λ b out. elim out [
    | inl lo ↦ ground (arith, spread-below buffer cs m b lo)
    | inr hi ↦ ground (arith, spread-above buffer cs m b (omega arith))
  ];
}

module _ {S : Type 0} ⦃machine : Machine S⦄ where
  -- The port delivers these characters, each within the fuel of a poll.
  unfoldable pub Delivers : ℕ → List ℕ → Kernel S → Kernel S → Type 0
  Delivers fuel [] k k' = k ≡ k'
  Delivers fuel (c ∷ cs) k k' =
      (k1 : Kernel S) × (read_serial fuel k ≡ some (c, k1)) × Delivers fuel cs k1 k'

  read_string_from-spread :
      (left fuel i buffer len : ℕ) (cs : List ℕ) (m : Memory) (k k' : Kernel S)
      → AreChars cs
      → Delivers fuel cs k k'
      → length cs < left
      → (i + 2 * length cs ≡ len) ⊎ (i + 2 * length cs ≡ len + 1)
      → read_string_from left fuel i buffer len m k
        ≡ some (i + 2 * length cs, spread (buffer + i) cs m, k')
  unfolding read_string_from spread AreChars Delivers
  read_string_from-spread zero fuel i buffer len cs m k k' chars delivered enough fits =
      absurd (omega arith)
  read_string_from-spread (suc left) fuel i buffer len [] m k k' chars delivered enough fits =
      rw (le→ltb i len (omega arith))
        (ap₂ (λ (x : ℕ) (y : Kernel S). some (x, m, y)) (omega arith) delivered)
  read_string_from-spread (suc left) fuel i buffer len (c ∷ cs) m k k' (pos, small, chars)
        (k1, runs, rest) enough fits =
      rw (lt→ltb i len (omega arith), runs, not_zero)
        (read_string_from-spread left fuel (i + 2) buffer len cs (store m (buffer + i) c) k1 k'
            chars rest (omega arith) (omega arith)
          ∙ ap₂ (λ (x y : ℕ). some (x, spread y cs (store m (buffer + i) c), k')) (omega arith)
              (omega arith))
    where
      not_zero : (c == 0) ≡ false
      not_zero = ground arith

  -- For characters that are not 0, delivered while the port is polled, and a length that is twice
  -- their number or one less, `readSerialString` ends and has taken them all: each stands two places
  -- behind the one before, the place between them is as it was, and the terminator stands at twice
  -- their number, which for the odd length lies one place behind `buffer[len]`.
  pub read_serial_string-Spaced :
      (fuel buffer len : ℕ) (cs : List ℕ) (m : Memory) (k k' : Kernel S)
      → AreChars cs
      → Delivers fuel cs k k'
      → (2 * length cs ≡ len) ⊎ (2 * length cs ≡ len + 1)
      → (m' : Memory) × (read_serial_string fuel buffer len m k ≡ some (m', k'))
        × Spaced buffer cs m m'
  unfolding read_serial_string
  read_serial_string-Spaced fuel buffer len cs m k k' chars delivered fits =
      let full = spread (buffer + 0) cs m in
      let runs =
        read_string_from-spread (len + 1) fuel 0 buffer len cs m k k' chars delivered (omega arith)
          (omega arith) in
      (
        store full (buffer + (0 + 2 * length cs)) 0,
        rw runs refl,
        subst₂ (λ (x y : ℕ). Spaced buffer cs m (store (spread x cs m) y 0)) (omega arith)
            (omega arith) (spread-Spaced buffer cs m chars),
      )
