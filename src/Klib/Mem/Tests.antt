-- ===== src/Klib/Mem/Tests.antt =====
-- Runs of the functions of kernel/lib/stdlib.c.
use maken_os.Base.{◌≡◌, refl, arith, ◌-◌, ◌&&◌, ltb, leb, if◌then◌else◌, Memory, IsBytes}
use maken_os.Klib.Mem.{memmove, copy_down}
use maken_os.Klib.Mem.Laws.{Copied, memmove-Copied}

-- The bytes 1, 2, 3, 4 from address 10 on.
abbrev row : Memory
row a = if leb 10 a && ltb a 14 then a - 9 else 0

row-IsBytes : IsBytes row
row-IsBytes a = ground arith

overlap : memmove 11 10 3 row 13 ≡ 3
unfolding memmove copy_down
overlap = refl

memmove-Copied_example : Copied 11 10 3 row (memmove 11 10 3 row)
memmove-Copied_example = memmove-Copied 11 10 3 row row-IsBytes
