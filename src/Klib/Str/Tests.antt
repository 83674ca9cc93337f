-- ===== src/Klib/Str/Tests.antt =====
-- Runs of the functions of kernel/lib/string.c.
use maken_os.Base.{
  ◌≡◌, ◌↔◌, refl, arith, inr, ◌||◌, leb, ◌==◌, if◌then◌else◌, some, Memory, IsBytes,
}
use maken_os.Klib.Mem.Laws.{Copied}
use maken_os.Klib.Str.{strcpy}
use maken_os.Klib.Str.Laws.{IsString, strcpy_lem}

-- "Hi" at 10, "Ho" at 20, and 7s from 30 on.
abbrev words : Memory
words a =
    if a == 10 || a == 20
    then 72
    else if a == 11
    then 105
    else if a == 21
    then 111
    else if leb 30 a
    then 7
    else 0

words-IsBytes : IsBytes words
words-IsBytes a = ground arith

hi : IsString words 10 2
hi = record { ends = refl; inside = λ j lt e. ground arith }

-- The copy at 30 is not terminated.
strcpy_example :
    (m' : Memory) × (strcpy 3 30 10 words ≡ some m')
    × Copied 30 10 2 words m'
    × (IsString m' 30 2 ↔ (words 32 ≡ 0))
strcpy_example = strcpy_lem 3 30 words-IsBytes hi (inr (omega arith)) (omega arith)
