-- ===== src/Base/Int.antt =====
-- Signed integers over the native numbers: what an `int` or a `char` stands for.
use Prim.Native.Nat.{ℕ, ◌+◌, ◌-◌}
use mathlib.Core.Bool.{Bool, false}
use maken_os.Base.Tests.{leb, ltb, if◌then◌else◌}

-- `negsuc n` is -(n + 1).
pub data ℤ : Type 0 where
  pos : ℕ → ℤ
  negsuc : ℕ → ℤ

-- a - b, as an integer.
abbrev pub sub_ℕ : ℕ → ℕ → ℤ
sub_ℕ a b = if leb b a then pos (a - b) else negsuc (b - a - 1)

-- The difference of two bytes that are read as `char`, which is signed.
abbrev pub sub_char : ℕ → ℕ → ℤ
sub_char a b = sub_ℕ (a + (if ltb b 128 then 0 else 256)) (b + (if ltb a 128 then 0 else 256))

abbrev pub is_zero : ℤ → Bool
is_zero (pos n) = leb n 0
is_zero (negsuc n) = false
