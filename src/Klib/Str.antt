-- ===== src/Klib/Str.antt =====
-- kernel/lib/string.c: strlen, strcmp, strcpy and reverse over byte memory. A string is the
-- address of its first byte. `none` means that the fuel ran out before a loop ended.
pub mod Laws
pub mod Reverse
mod Tests
use maken_os.Base.{ℕ, zero, suc, ◌+◌, ◌-◌, ◌||◌, ltb, ◌==◌, ◌!=◌, if◌then◌else◌, Option, none, some}
use maken_os.Base.{Memory, store, ℤ, pos, sub_char, ◌>>=◌}
use maken_os.Klib.Mem.{copy_up}

strlen_from : ℕ → ℕ → ℕ → Memory → Option ℕ
strlen_from zero ret s m = none
strlen_from (suc fuel) ret s m =
    let rest = strlen_from fuel (ret + 1) s m in if m (s + ret) == 0 then some ret else rest

unfoldable pub strlen : ℕ → ℕ → Memory → Option ℕ
unfolding strlen_from
strlen fuel s m = strlen_from fuel 0 s m

strcmp_from : ℕ → ℕ → ℕ → ℕ → Memory → Option ℤ
strcmp_from zero i s1 s2 m = none
strcmp_from (suc fuel) i s1 s2 m =
    let rest = strcmp_from fuel (i + 1) s1 s2 m in
    if m (s1 + i) != 0 || m (s2 + i) != 0
    then (if m (s1 + i) != m (s2 + i) then some (sub_char (m (s1 + i)) (m (s2 + i))) else rest)
    else some (pos 0)

unfoldable pub strcmp : ℕ → ℕ → ℕ → Memory → Option ℤ
unfolding strcmp_from
strcmp fuel s1 s2 m = strcmp_from fuel 0 s1 s2 m

-- The loop is that of `memcpy`.
unfoldable pub strcpy : ℕ → ℕ → ℕ → Memory → Option Memory
unfolding copy_up
strcpy fuel destination source m = do
  length ← strlen fuel source m
  some (copy_up length 0 destination source m)

-- `i` and `j` are `int`s, which a string of less than 2^31 bytes does not overflow. `j` starts at
-- `strlen(s) - 1`, -1 for an empty string: `k` is `j + 1`.
reverse_from : ℕ → ℕ → ℕ → ℕ → Memory → Option Memory
reverse_from zero i k s m = none
reverse_from (suc fuel) i k s m =
    let j = k - 1 in
    let tmp = m (s + i) in
    let rest =
      reverse_from fuel (i + 1) (k - 1) s (store (store m (s + i) (m (s + j))) (s + j) tmp) in
    if ltb (i + 1) k then rest else some m

unfoldable pub reverse : ℕ → ℕ → Memory → Option Memory
unfolding reverse_from
reverse fuel s m = do length ← strlen fuel s m; reverse_from fuel 0 length s m
