-- ===== src/Interfaces/Madt/Tests.antt =====
-- A run of kernel/interfaces/description_tables/madt.c on a record of a type that it does not know.
use maken_os.Base.{◌≡◌, refl, arith, none, ◌==◌, if◌then◌else◌, Memory, read_le}
use maken_os.Interfaces.Madt.{empty_madt, keep_record, parse_from}
use maken_os.Interfaces.Madt.Laws.{parse_from-stuck}

-- A table of 56 bytes with a record of twelve bytes, of type 6.
abbrev one_iosapic : Memory
one_iosapic a = if a == 4 then 56 else if a == 44 then 6 else if a == 45 then 12 else 0

parse_from-stuck_example : parse_from 100 44 0 one_iosapic empty_madt ≡ none
unfolding read_le keep_record
parse_from-stuck_example = parse_from-stuck 100 44 0 one_iosapic empty_madt (omega arith) refl
