-- ===== src/Klib/Print/Tests.antt =====
-- `printNumber` of kernel/lib/print.c on the largest number.
use maken_os.Base.{
  ℕ, ◌+◌, ◌^◌, ◌≤◌, ◌<◌, ◌≡◌, arith, List, [], ◌∷◌, ◌++◌, some, Memory, SameOutside,
}
use maken_os.Klib.Print.{print_number}
use maken_os.Klib.Print.Laws.{AreDigits, read_decimal, print_number-text}

abbrev empty : Memory
empty a = 0

print_number-text_example :
    (text : List ℕ) × (m' : Memory) × (print_number 65 18446744073709551615 0x100 empty
      ≡ some (text ++ (b'\n' ∷ []), m'))
    × AreDigits text
    × (read_decimal 0 text ≡ 18446744073709551615)
    × (18446744073709551615 < 10 ^ 19 → SameOutside 0x100 20 empty m')
    × (10 ^ 19 ≤ 18446744073709551615 → (m' (0x100 + 20) ≡ 0) × SameOutside 0x100 21 empty m')
print_number-text_example =
    print_number-text 18446744073709551615 0x100 empty (omega arith) (λ a. omega arith)
