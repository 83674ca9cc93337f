-- ===== src/Base/First.antt =====
-- The first index of a range that has a property: what the search loops return.
use Prim.Native.Nat.{ℕ, zero, suc, ◌+◌, ◌≤◌, ◌<◌}
use mathlib.Core.Path.{◌≡◌, ap, sym, subst}
use mathlib.Core.Option.{Option, none, some}
use native.Mathlib.Decide.{ℕ_discrete}
use native.Mathlib.Omega.{arith}

-- `r` is the first of the `left` indices from `i` on that has the property, `none` if none has.
pub data First (Is : ℕ → Type 0) : ℕ → ℕ → Option ℕ → Type 0 where
  nowhere : {i : ℕ} → First Is zero i none
  here : {left i : ℕ} → Is i → First Is (suc left) i (some i)
  later : {left i : ℕ} {r : Option ℕ} → ¬ Is i → First Is left (i + 1) r → First Is (suc left) i r

pub First-eq :
    {Is : ℕ → Type 0} {left i k : ℕ} {r : Option ℕ}
    → First Is left i r
    → Is k
    → i ≤ k
    → k < i + left
    → ((j : ℕ) → i ≤ j → j < k → ¬ Is j)
    → r ≡ some k
First-eq nowhere is lo hi none_before = absurd (omega arith)
First-eq {k} (here {i} is_i) is lo hi none_before = elim (ℕ_discrete i k) [
  | yes e ↦ ap some e
  | no ne ↦ absurd (none_before i (omega arith) (omega arith) is_i)
]
First-eq {Is} {k} (later {i} is_not rest) is lo hi none_before = elim (ℕ_discrete i k) [
  | yes e ↦ absurd (is_not (subst Is (sym e) is))
  | no ne ↦ First-eq rest is (omega arith) (omega arith) (λ j p q. none_before j (omega arith) q)
]
