-- ===== src/Boot/Tables.antt =====
-- kernel/kernel.c: the part of `_start` that finds the ACPI tables and prints what they say. A null
-- pointer is the address 0, which the code reads like any other.
pub mod Laws
mod Tests
use maken_os.Base.{
  ℕ, zero, suc, ◌+◌, Option, none, some, ◌==◌, if◌then◌else◌, bit_and, List, [], ◌∷◌, length,
  get_elem?, Memory, read_le,
}
use maken_os.Sys.{
  Action, and_then, Machine, Kernel, pure, ◌>>=◌, ◌>>◌, term_write, term_bytes, print_number,
}
use maken_os.Klib.Print.{bytes_at}
use maken_os.Memory.Pmm.{address_of}
use maken_os.Interfaces.Acpi.{validate_rsdp_checksum, find_header}
use maken_os.Interfaces.Madt.{Madt, init_madt, parse_madt}

-- The variables `xsdt` and `rsdt`: the first one is set for a descriptor of revision 2 only.
unfoldable pub find_tables : ℕ → Memory → Option ℕ × ℕ
find_tables rsdp m =
    (if m (rsdp + 15) == 2 then some (read_le 8 m (rsdp + 24)) else none, read_le 4 m (rsdp + 16))

-- `limine_smp_response`: the flags, and the two numbers of each processor.
pub record SmpResponse : Type 0 where
  pub flags : ℕ
  pub cpus : List (ℕ × ℕ)

module _ {S : Type 0} ⦃machine : Machine S⦄ where
  unfoldable pub report_checksum : ℕ → Memory → Action (Kernel S) (Unit {0})
  report_checksum rsdp m =
      if bit_and (validate_rsdp_checksum rsdp m) 0xff == 0
      then (do term_write "ACPI ready to go\n" 18; print_number (m (rsdp + 15)))
      else pure tt

  unfoldable pub report_fadt : Option ℕ → Memory → Action (Kernel S) (Unit {0})
  report_fadt none m = pure tt
  report_fadt (some fadt) m = term_bytes (bytes_at 4 fadt m)

  -- `facp` is the address of the signature that is looked for.
  unfoldable pub report_acpi : ℕ → ℕ → Memory → Action (Kernel S) (Unit {0})
  report_acpi rsdp facp m = do
    let rsdt = (find_tables rsdp m).1
    report_checksum rsdp m
    term_bytes (bytes_at 4 rsdt m)
    report_fadt (find_header rsdt facp m) m

  -- The loop over the first source overrides, from index `i` on. The members are at 2, 3 and 4.
  unfoldable pub report_overrides : ℕ → ℕ → List ℕ → Memory → Action (Kernel S) (Unit {0})
  report_overrides zero i overrides m = pure tt
  report_overrides (suc left) i overrides m = do
    let override = address_of (get_elem? overrides i)
    term_write "IOAPIC\n" 7
    print_number (m (override + 2))
    print_number (m (override + 3))
    print_number (read_le 4 m (override + 4))
    report_overrides left (i + 1) overrides m

  unfoldable pub report_madt : ℕ → Madt → Memory → Action (Kernel S) (Unit {0})
  report_madt madt t m = do
    term_write "found APICS\n" 13
    term_write "testing results\n" 16
    term_write "my results\n" 12
    print_number (read_le 4 m (madt + 4))
    print_number (read_le 4 m (madt + 36))
    print_number (read_le 4 m (address_of (get_elem? t.ioapics 0) + 8))
    report_overrides 5 0 t.ioapic_source_overrides m

  -- The outer `none` means that the fuel of `parseMADT` ran out, the inner one that it wrote behind an
  -- array. `apic` is the address of its signature.
  unfoldable pub start_madt : ℕ → ℕ → ℕ → Memory → Kernel S → Option (Option (Madt × Kernel S))
  start_madt fuel rsdt apic m k =
      let madt = address_of (init_madt rsdt apic m) in
      let k1 = (term_write "\nfinding APICS\n" 15 k).1 in
      and_then (parse_madt fuel madt m) λ parsed. some (report parsed madt k1)
    where
      report : Option Madt → ℕ → Kernel S → Option (Madt × Kernel S)
      report none madt k1 = none
      report (some t) madt k1 = some (t, (report_madt madt t m k1).1)

  unfoldable pub report_cpus : List (ℕ × ℕ) → Action (Kernel S) (Unit {0})
  report_cpus [] = pure tt
  report_cpus (cpu ∷ cpus) = do print_number cpu.0; print_number cpu.1; report_cpus cpus

  -- The numbers of a processor are its `lapic_id` and its `processor_id`.
  unfoldable pub report_smp : Option SmpResponse → Action (Kernel S) (Unit {0})
  report_smp none = pure tt
  report_smp (some response) = do
    term_write "limine's results\n" 18
    print_number (length response.cpus)
    print_number response.flags
    report_cpus response.cpus

  abbrev report_end : Option SmpResponse → Option (Madt × Kernel S) → Option (Madt × Kernel S)
  report_end smp none = none
  report_end smp (some r) = some (r.0, ((do report_smp smp; term_write "results done\n" 14) r.1).1)

  -- From the access to the descriptor to the end of the results.
  unfoldable pub start_tables :
      ℕ → ℕ → ℕ → ℕ → Option SmpResponse → Memory → Kernel S → Option (Option (Madt × Kernel S))
  start_tables fuel rsdp facp apic smp m k =
      let k1 = (report_acpi rsdp facp m k).1 in
      and_then (start_madt fuel (find_tables rsdp m).1 apic m k1) (λ r. some (report_end smp r))
