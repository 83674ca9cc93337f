-- ===== src/Base/Bits/Step.antt =====
-- `&` and `|` on binary digits: the lowest digit of the result, and the rest of it. The native
-- operations are specified by a recursion with fuel, of which more than enough changes nothing.
use Prim.Native.Nat.{
  ℕ, zero, suc, ◌+◌, ◌*◌, ◌/◌, ◌%◌, ◌≤◌, min, max, bit_and, bit_or, digits, bitwise,
  bit_and-bitwise, bit_or-bitwise,
}
use mathlib.Core.Path.{◌≡◌, refl, ap, ◌∙◌}
use native.Mathlib.Omega.{arith}

module _ (last : ℕ → ℕ) (op : ℕ → ℕ → ℕ) where
  -- One unit of fuel beyond the first number.
  one_more : (fuel x y : ℕ) → x ≤ fuel → digits last op (suc fuel) x y ≡ digits last op fuel x y
  one_more zero zero y enough = refl
  one_more zero (suc x) y enough = absurd (omega arith)
  one_more (suc fuel) zero y enough = refl
  one_more (suc fuel) (suc x) y enough =
      ap (λ (t : ℕ). t * 2 + op (suc x % 2) (y % 2))
        (one_more fuel (suc x / 2) (y / 2) (omega arith))

  spare :
      (extra fuel total x y : ℕ)
      → x ≤ fuel
      → total ≡ fuel + extra
      → digits last op total x y ≡ digits last op fuel x y
  spare zero fuel total x y enough sum =
      let same : total ≡ fuel = omega arith in ap (λ (t : ℕ). digits last op t x y) same
  spare (suc extra) fuel zero x y enough sum = absurd (omega arith)
  spare (suc extra) fuel (suc total) x y enough sum =
      one_more total x y (omega arith) ∙ spare extra fuel total x y enough (omega arith)

  lowest_digit :
      (x y : ℕ)
      → bitwise last op (suc x) y ≡ op (suc x % 2) (y % 2) + 2 * bitwise last op (suc x / 2) (y / 2)
  lowest_digit x y =
      let half = suc x / 2 in
      omega (arith, spare (x / 2) half x half (y / 2) (omega arith) (omega arith))

pub bit_and_step : (x y : ℕ) → bit_and x y ≡ min (x % 2) (y % 2) + 2 * bit_and (x / 2) (y / 2)
bit_and_step zero y = simp bit_and-bitwise (omega arith)
bit_and_step (suc x) y = simp bit_and-bitwise (lowest_digit (λ t. 0) min x y)

pub bit_or_step : (x y : ℕ) → bit_or x y ≡ max (x % 2) (y % 2) + 2 * bit_or (x / 2) (y / 2)
bit_or_step zero y = simp bit_or-bitwise (omega arith)
bit_or_step (suc x) y = simp bit_or-bitwise (lowest_digit (λ t. t) max x y)
