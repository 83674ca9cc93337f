-- ===== src/Interfaces/Fadt.antt =====
-- kernel/interfaces/description_tables/fadt.c and fadt.h: the table that names the ports of power
-- management, and the switch to ACPI mode. The members of the packed structure stand at the offsets
-- below; the loop that polls takes fuel, and `none` means that it ran out.
pub mod Laws
mod Tests
use maken_os.Base.{
  ℕ, zero, suc, ◌+◌, Option, none, some, ◌==◌, if◌then◌else◌, bit_and, Memory, read_le,
}
use maken_os.Sys.{Machine, Kernel, inw, outb}
use maken_os.Memory.Pmm.{address_of}
use maken_os.Interfaces.Acpi.{find_header}

module _ (fadt : ℕ) (m : Memory) where
  abbrev pub smi_command_port : ℕ
  smi_command_port = read_le 4 m (fadt + 48)

  abbrev pub acpi_enable : ℕ
  acpi_enable = m (fadt + 52)

  abbrev pub pm1a_control_block : ℕ
  pm1a_control_block = read_le 4 m (fadt + 64)

-- `findHeader` gets the table that lists the others and the address of "FACP". NULL is kept as the
-- address 0.
unfoldable pub init_fadt : ℕ → ℕ → Memory → ℕ
init_fadt rsdt facp m = address_of (find_header rsdt facp m)

module _ {S : Type 0} ⦃machine : Machine S⦄ where
  -- The loop: it goes on while bit 0 is clear.
  unfoldable pub poll_control : ℕ → ℕ → Kernel S → Option (Kernel S)
  poll_control zero port k = none
  poll_control (suc fuel) port k =
      let control = inw port k in
      let rest = poll_control fuel port control.1 in
      if bit_and control.0 1 == 0 then rest else some control.1

  unfoldable pub enable_acpi : ℕ → ℕ → Memory → Kernel S → Option (Kernel S)
  enable_acpi fuel fadt m k =
      poll_control fuel (pm1a_control_block fadt m)
        (outb (smi_command_port fadt m) (acpi_enable fadt m) k).1
