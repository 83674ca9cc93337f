-- ===== src/Klib/Num.antt =====
-- kernel/lib/stdlib.c: itoa and uint64toa, over byte memory. `none` is a fault (a division by zero,
-- or `-value` past the end of `int`) or fuel that ran out.
pub mod Digits
pub mod Laws
pub mod Signed
mod Tests
use maken_os.Base.{
  ℕ, zero, suc, ◌+◌, ◌-◌, ◌*◌, ◌/◌, ◌%◌, ◌^◌, Bool, true, false, Option, none, some,
}
use maken_os.Base.{ltb, ◌==◌, if◌then◌else◌, Memory, store, ℤ, pos, negsuc, ◌>>=◌}
use maken_os.Klib.Str.{reverse}

-- The `do` loop, which both functions share, from index `i` on: the index behind the last digit,
-- and the memory.
unfoldable pub digits_from : ℕ → ℕ → ℕ → ℕ → ℕ → Memory → Option (ℕ × Memory)
digits_from zero value base i str m = none
digits_from (suc fuel) value base i str m =
    let m' = store m (str + i) (value % base + b'0') in
    let rest = digits_from fuel (value / base) base (i + 1) str m' in
    if base == 0 then none else if ltb 0 (value / base) then rest else some (i + 1, m')

unfoldable pub uint64toa : ℕ → ℕ → ℕ → ℕ → Memory → Option Memory
uint64toa fuel value str base m = do
  (i, m') ← digits_from fuel value base 0 str m
  reverse fuel str (store m' (str + i) 0)

is_negative : ℤ → Bool
is_negative (pos n) = false
is_negative (negsuc n) = true

-- `value = negative ? -value : value`
magnitude : ℤ → Option ℕ
magnitude (pos n) = some n
magnitude (negsuc n) = if n == 2 ^ 31 - 1 then none else some (n + 1)

unfoldable pub itoa : ℕ → ℤ → ℕ → ℕ → Memory → Option Memory
unfolding is_negative magnitude
itoa fuel value str base m = do
  absolute ← magnitude value
  (i, m') ← digits_from fuel absolute base 0 str m
  let j = if is_negative value then i + 1 else i
  let m'' = if is_negative value then store m' (str + i) b'-' else m'
  reverse fuel str (store m'' (str + j) 0)
