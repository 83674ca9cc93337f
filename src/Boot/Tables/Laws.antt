-- ===== src/Boot/Tables/Laws.antt =====
-- The part of `_start` in kernel/kernel.c that finds the ACPI tables.
use maken_os.Base.{
  ℕ, ◌+◌, ◌^◌, ◌≤◌, ◌≡◌, refl, Option, some, List, length, Memory, IsBytes, read_le,
}
use maken_os.Sys.{Machine, Kernel}
use maken_os.Interfaces.Acpi.{find_header}
use maken_os.Interfaces.Madt.{Madt, madt_size, init_madt}
use maken_os.Interfaces.Madt.Laws.{Records, of_type, Collected, parse_madt-Collected}
use maken_os.Boot.Tables.{SmpResponse, find_tables, start_madt, start_tables}

-- On any machine, where the table of the descriptor lists an MADT of at most 2^32 - 256 bytes that
-- is a row of records of known types and of lengths that are not zero, at most 32 of a type, and
-- with fuel for its length and 256, the part of `_start` that reports the tables ends, nothing is
-- written behind an array, and each array holds the records of its type, in order.
pub start_tables-Collected :
    {S : Type 0} ⦃machine : Machine S⦄ (fuel rsdp facp apic madt : ℕ) (smp : Option SmpResponse)
    {heads : List ℕ} (m : Memory) (k : Kernel S)
    → IsBytes m
    → find_header (find_tables rsdp m).1 apic m ≡ some madt
    → read_le 4 m (madt + 4) + 256 ≤ 2 ^ 32
    → Records madt m madt_size heads
    → ((kind : ℕ) → length (of_type kind heads m) ≤ 32)
    → read_le 4 m (madt + 4) + 256 ≤ fuel
    → (r : Madt × Kernel S) × (start_tables fuel rsdp facp apic smp m k ≡ some (some r))
      × Collected heads m r.0
unfolding start_tables start_madt init_madt
start_tables-Collected fuel rsdp facp apic madt smp m k small found fits rows few enough =
    let parsed = parse_madt-Collected fuel madt m small fits rows few enough in
    rw (found, parsed.1) ((parsed.0, _), refl, parsed.2)
