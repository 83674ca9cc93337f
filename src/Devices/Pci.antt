-- ===== src/Devices/Pci.antt =====
-- kernel/devices/pci.c: the configuration space of the PCI bus.
pub mod Laws
pub mod Scan
mod Tests
use maken_os.Base.{
  ℕ, zero, suc, ◌+◌, ◌*◌, ◌%◌, ◌^◌, Bool, true, false, ◌==◌, ◌!=◌, if◌then◌else◌, bit_and, bit_or,
  ◌<<<◌, ◌>>>◌,
}
use maken_os.Sys.{
  Action, Machine, Kernel, pci_interrupt_handler, pure, ◌>>=◌, ◌>>◌, in_long, out_long, term_write,
  print_number,
}
use maken_os.Interrupts.Isr.{InterruptFrame, register_interrupt_handler}
use maken_os.Devices.Ioapic.{write_ioapic}

-- The arguments are `uint8_t`, widened to 32 bits before the shifts.
unfoldable pub config_address : ℕ → ℕ → ℕ → ℕ → ℕ
config_address bus device func offset =
    bit_or
      (bit_or (bit_or (bit_or ((bus % 256) <<< 16) ((device % 256) <<< 11)) ((func % 256) <<< 8))
        (bit_and (offset % 256) 0xfc))
      0x80000000

module _ {S : Type 0} ⦃machine : Machine S⦄ where
  unfoldable pub pci_config_read_word : ℕ → ℕ → ℕ → ℕ → Action (Kernel S) ℕ
  pci_config_read_word bus device func offset = do
    out_long 0xcf8 (config_address bus device func offset)
    word ← in_long 0xcfc
    pure (bit_and (word >>> (bit_and (offset % 256) 2 * 8)) 0xffff)

  unfoldable pub get_vendor_id : ℕ → ℕ → ℕ → Action (Kernel S) ℕ
  get_vendor_id bus device function = pci_config_read_word bus device function 0

  unfoldable pub get_header_type : ℕ → ℕ → ℕ → Action (Kernel S) ℕ
  get_header_type bus device function =
      pci_config_read_word bus device function (bit_and (0xc + 2) 0xff)

  unfoldable pub check_function : ℕ → ℕ → ℕ → Action (Kernel S) Bool
  unfolding get_header_type
  check_function bus device function = do
    header ← get_header_type (bus % 256) (device % 256) (function % 256)
    pure (header != 0xffff)

  -- The vendors of the functions from `function` on are read and not used.
  check_functions : ℕ → ℕ → ℕ → ℕ → Action (Kernel S) (Unit {0})
  check_functions zero function bus device = pure tt
  check_functions (suc left) function bus device = do
    get_vendor_id bus device function
    check_functions left (function + 1) bus device

  unfoldable pub check_device : ℕ → ℕ → Action (Kernel S) (Unit {0})
  unfolding check_functions
  check_device bus device = do
    present ← check_function bus device 0
    if present
        then (do
          header_type ← get_header_type (bus % 256) (device % 256) 0
          if bit_and header_type 0x80 == 0
              then pure tt
              else check_functions 7 1 (bus % 256) (device % 256))
        else pure tt

  check_devices : ℕ → ℕ → ℕ → Action (Kernel S) (Unit {0})
  check_devices zero device bus = pure tt
  check_devices (suc left) device bus = do
    check_device bus device
    check_devices left (device + 1) bus

  check_buses : ℕ → ℕ → Action (Kernel S) (Unit {0})
  check_buses zero bus = pure tt
  check_buses (suc left) bus = do check_devices 32 0 bus; check_buses left (bus + 1)

  unfoldable pub check_all_buses : Action (Kernel S) (Unit {0})
  unfolding check_buses check_devices
  check_all_buses = check_buses 256 0

  -- `pciInterruptHandler`
  unfoldable pub on_pci : InterruptFrame → Action (Kernel S) (Unit {0})
  on_pci frame = print_number frame.int_no

  unfoldable pub enable_pci_interrupts : ℕ → ℕ → ℕ → ℕ → Action (Kernel S) (Unit {0})
  enable_pci_interrupts bus device function ioapicaddr = do
    interrupt ← pci_config_read_word bus device function 0x3e
    let interrupt_line = bit_and interrupt 0xff
    write_ioapic ioapicaddr (interrupt_line * 2 + 0x10) (0x20 + interrupt_line)
    register_interrupt_handler (0x20 + interrupt_line) pci_interrupt_handler

  unfoldable pub check_msi : ℕ → ℕ → ℕ → Action (Kernel S) (Unit {0})
  check_msi bus device func = do
    status ← pci_config_read_word bus device func 0x4
    word ← pci_config_read_word bus device func 0x20
    print_number word
    word ← pci_config_read_word bus device func 0x22
    print_number word
    word ← pci_config_read_word bus device func 0x24
    print_number word
    word ← pci_config_read_word bus device func 0x26
    print_number word
    if bit_and status 0x10 == 0 then term_write "No MSI!" 8 else (do
      capabilities_pointer ← pci_config_read_word bus device func 0x36
      capability ← pci_config_read_word bus device func (capabilities_pointer + 0x2)
      if bit_and capability 0xff == 5
          then term_write "MSI Enabled!" 13
          else print_number (capability >>> 8))
