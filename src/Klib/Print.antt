-- ===== src/Klib/Print.antt =====
-- kernel/lib/print.c: the decimal text of a number on the terminal.
pub mod Laws
mod Tests
use maken_os.Base.{ℕ, zero, suc, ◌+◌, List, [], ◌∷◌, ◌++◌, Option, some, ◌>>=◌, Memory}
use maken_os.Klib.Str.{strlen}
use maken_os.Klib.Num.{uint64toa}

-- The bytes that `term_write` gets from an address.
unfoldable pub bytes_at : ℕ → ℕ → Memory → List ℕ
bytes_at zero a m = []
bytes_at (suc n) a m = m a ∷ bytes_at n (a + 1) m

-- What `printNumber` writes to the terminal, and the memory, where `x` is the address of its buffer
-- of twenty bytes. `none` means that the fuel ran out.
unfoldable pub print_number : ℕ → ℕ → ℕ → Memory → Option (List ℕ × Memory)
print_number fuel num x m = do
  m' ← uint64toa fuel num x 10 m
  length ← strlen fuel x m'
  some (bytes_at length x m' ++ (b'\n' ∷ []), m')
