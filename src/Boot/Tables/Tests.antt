-- ===== src/Boot/Tables/Tests.antt =====
-- The tables of kernel/kernel.c in a firmware with one MADT.
use maken_os.Base.{
  ℕ, ◌≤◌, length, ◌≡◌, refl, arith, ◌||◌, none, some, [], ◌∷◌, ◌==◌, if◌then◌else◌, Memory, IsBytes,
  read_le,
}
use maken_os.Sys.{Kernel}
use maken_os.Sys.Trace.{Event, History, tracing, booted}
use maken_os.Interfaces.Acpi.{find_header, find_from}
use maken_os.Interfaces.Madt.{Madt, madt_size}
use maken_os.Interfaces.Madt.Laws.{Records, end, entry, of_type, Collected}
use maken_os.Boot.Tables.{find_tables, start_tables}
use maken_os.Boot.Tables.Laws.{start_tables-Collected}

-- The descriptor at 1000 names the table at 0, which lists the MADT at 200, of one record; the
-- signature at 400 begins with its letter.
abbrev firmware : Memory
firmware a =
    if a == 4
    then 40
    else if a == 36
    then 200
    else if a == 200 || a == 400
    then 65
    else if a == 204
    then 56
    else if a == 244
    then 1
    else if a == 245
    then 12
    else 0

firmware-IsBytes : IsBytes firmware
firmware-IsBytes a = ground arith

row : Records 200 firmware madt_size (244 ∷ [])
unfolding read_le
row = entry (omega arith) refl (omega arith) (end (omega arith))

found : find_header (find_tables 1000 firmware).1 400 firmware ≡ some 200
unfolding find_tables find_header find_from read_le
found = refl

one_record : (kind : ℕ) → length (of_type kind (244 ∷ []) firmware) ≤ 32
unfolding of_type
one_record kind = ground arith

abbrev answer : History → Event → ℕ
answer h e = 0

start_tables-Collected_example :
    (r : Madt × Kernel History) × (start_tables ⦃machine = tracing answer⦄ 400 1000 500 400 none
        firmware booted
      ≡ some (some r))
    × Collected (244 ∷ []) firmware r.0
unfolding read_le
start_tables-Collected_example =
    start_tables-Collected ⦃machine = tracing answer⦄ 400 1000 500 400 200 none firmware booted
      firmware-IsBytes found (omega arith) row one_record (omega arith)
