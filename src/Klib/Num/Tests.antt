-- ===== src/Klib/Num/Tests.antt =====
-- A run of `uint64toa` of kernel/lib/string.c.
use maken_os.Base.{ℕ, ◌≡◌, arith, some, Memory, IsBytes, negsuc}
use maken_os.Klib.Num.{itoa, uint64toa}
use maken_os.Klib.Num.Laws.{Printed, uint64toa-Printed}
use maken_os.Klib.Num.Signed.{PrintedInt, itoa-PrintedInt}

abbrev blank : Memory
blank a = 0

blank-IsBytes : IsBytes blank
blank-IsBytes a = omega arith

uint64toa-Printed_example :
    (n : ℕ) × (m' : Memory) × (uint64toa 65 1024 0 10 blank ≡ some m')
    × Printed 10 1024 0 blank n m'
uint64toa-Printed_example =
    uint64toa-Printed 64 1024 0 10 blank (omega arith) (omega arith) (omega arith) (omega arith)
      blank-IsBytes

itoa-PrintedInt_example :
    (n : ℕ) × (m' : Memory) × (itoa 33 (negsuc 1023) 0 10 blank ≡ some m')
    × PrintedInt 10 (negsuc 1023) 0 blank n m'
itoa-PrintedInt_example =
    itoa-PrintedInt (negsuc 1023) 0 10 blank (omega arith) (omega arith) (omega arith) blank-IsBytes
