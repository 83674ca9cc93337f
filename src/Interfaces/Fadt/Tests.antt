-- ===== src/Interfaces/Fadt/Tests.antt =====
-- Runs of kernel/interfaces/description_tables/fadt.c on a machine that takes one look to switch.
use maken_os.Base.{
  ℕ, zero, suc, ◌<◌, ◌≡◌, refl, arith, true, some, ◌==◌, if◌then◌else◌, [], ◌∷◌, Memory, read_le,
}
use maken_os.Sys.Trace.{Event, read16, write8, History, tracing, booted}
use maken_os.Interfaces.Fadt.{enable_acpi}
use maken_os.Interfaces.Fadt.Laws.{read_again, is_clear, enable_acpi-read_again}

-- The table at 0: the command port 0xb2, the value 0xf1, and the control register at 0x604.
abbrev table : Memory
table a =
    if a == 48
    then 0xb2
    else if a == 52
    then 0xf1
    else if a == 64
    then 0x04
    else if a == 65
    then 0x06
    else 0

abbrev answer : History → Event → ℕ
answer [] e = 0
answer (e' ∷ []) e = 0
answer (e' ∷ (e'' ∷ h)) e = 1

first : (i : ℕ) → i < 1 → is_clear answer 0x604 (read_again i 0x604 (write8 0xb2 0xf1 ∷ [])) ≡ true
unfolding read_again
first zero lt = refl
first (suc i) lt = absurd (omega arith)

enable_acpi-read_again_example :
    enable_acpi ⦃machine = tracing answer⦄ 9 0 table booted
    ≡ some (record booted { bus = read16 0x604 ∷ read16 0x604 ∷ write8 0xb2 0xf1 ∷ [] })
unfolding read_again read_le
enable_acpi-read_again_example =
    enable_acpi-read_again answer 9 1 0 table booted (omega arith) first refl
