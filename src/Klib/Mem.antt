-- ===== src/Klib/Mem.antt =====
-- kernel/lib/string.c: memcpy, memset, memmove and memcmp over byte memory. A loop over `i` is a
-- recursion on the rounds left, with the index beside it.
pub mod Laws
mod Tests
use maken_os.Base.{ℕ, zero, suc, ◌+◌, Bool, ltb, ◌!=◌, if◌then◌else◌}
use maken_os.Base.{Memory, store, ℤ, pos, negsuc}

unfoldable pub copy_up : ℕ → ℕ → ℕ → ℕ → Memory → Memory
copy_up zero i dest src m = m
copy_up (suc left) i dest src m = copy_up left (i + 1) dest src (store m (dest + i) (m (src + i)))

-- `for (i = n; i > 0; i--) pdest[i-1] = psrc[i-1]`
copy_down : ℕ → ℕ → ℕ → Memory → Memory
copy_down zero dest src m = m
copy_down (suc i) dest src m = copy_down i dest src (store m (dest + i) (m (src + i)))

fill : ℕ → ℕ → ℕ → ℕ → Memory → Memory
fill zero i s c m = m
fill (suc left) i s c m = fill left (i + 1) s c (store m (s + i) c)

unfoldable pub memcpy : ℕ → ℕ → ℕ → Memory → Memory
unfolding copy_up
memcpy dest src n m = copy_up n 0 dest src m

unfoldable pub memset : ℕ → ℕ → ℕ → Memory → Memory
unfolding fill
memset s c n m = fill n 0 s c m

unfoldable pub memmove : ℕ → ℕ → ℕ → Memory → Memory
unfolding copy_up copy_down
memmove dest src n m =
    if ltb dest src
    then copy_up n 0 dest src m
    else if ltb src dest
    then copy_down n dest src m
    else m

compare_from : ℕ → ℕ → ℕ → ℕ → Memory → ℤ
compare_from zero i s1 s2 m = pos 0
compare_from (suc left) i s1 s2 m =
    let rest = compare_from left (i + 1) s1 s2 m in
    if m (s1 + i) != m (s2 + i)
    then (if ltb (m (s1 + i)) (m (s2 + i)) then negsuc 0 else pos 1)
    else rest

unfoldable pub memcmp : ℕ → ℕ → ℕ → Memory → ℤ
unfolding compare_from
memcmp s1 s2 n m = compare_from n 0 s1 s2 m
