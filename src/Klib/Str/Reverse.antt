-- ===== src/Klib/Str/Reverse.antt =====
-- `reverse` of kernel/lib/string.c turns a string round in place.
use native.Mathlib.Decide.{dec_lt}
use maken_os.Base.{
  ℕ, zero, suc, ◌+◌, ◌-◌, ◌*◌, ◌≤◌, ◌<◌, ◌≡◌, ◌&&◌, some, arith, leb, ltb, if◌then◌else◌, Memory,
  store, IsBytes,
}
use maken_os.Klib.Str.{reverse_from, reverse}
use maken_os.Klib.Str.Laws.{IsString, strlen_lem}

-- `m'` is `m` with the bytes of `[s + i, s + k)` in the opposite order.
abbrev pub Reversed : ℕ → ℕ → ℕ → Memory → Memory → Type 0
Reversed i k s m m' =
    (b : ℕ) → m' b ≡ (if leb (s + i) b && ltb b (s + k) then m (s + (i + k - 1 - (b - s))) else m b)

reverse_from_lem :
    (fuel i k s : ℕ) (m : Memory)
    → IsBytes m
    → i ≤ k
    → k < i + 2 * fuel
    → (m' : Memory) × (reverse_from fuel i k s m ≡ some m') × Reversed i k s m m'
unfolding reverse_from
reverse_from_lem zero i k s m h order enough = absurd (omega arith)
reverse_from_lem (suc fuel) i k s m h order enough = elim (dec_lt (i + 1) k) [
  | yes more ↦
      let m1 : Memory = store (store m (s + i) (m (s + (k - 1)))) (s + (k - 1)) (m (s + i)) in
      let later =
        reverse_from_lem fuel (i + 1) (k - 1) s m1 (λ a. ground (arith, h a)) (omega arith)
          (omega arith) in
      (later.0, ground (arith, later.1), λ b. ground (arith, later.2 b, h (s + i), h (s + (k - 1))))
  | no stop ↦ (m, ground arith, λ b. ground arith)
]

-- On a terminated string, with fuel beyond its length, `reverse` ends, puts the bytes in the
-- opposite order and changes no other byte.
pub reverse-Reversed :
    (fuel n s : ℕ) (m : Memory)
    → IsBytes m
    → IsString m s n
    → n < fuel
    → (m' : Memory) × (reverse fuel s m ≡ some m') × Reversed 0 n s m m'
unfolding reverse
reverse-Reversed fuel n s m h str enough =
    let done = reverse_from_lem fuel 0 n s m h (omega arith) (omega arith) in
    (done.0, rw (strlen_lem fuel n s m str enough) done.1, done.2)
