-- ===== src/Interfaces/Fadt/Laws.antt =====
-- The switch to ACPI mode in kernel/interfaces/description_tables/fadt.c.
use maken_os.Base.{
  ℕ, zero, suc, ◌%◌, ◌^◌, ◌<◌, ◌≡◌, refl, arith, Bool, true, false, some, ◌==◌, bit_and, ◌∷◌,
  Memory,
}
use maken_os.Sys.{Kernel, inw, outb}
use maken_os.Sys.Trace.{Event, read16, write8, History, tracing}
use maken_os.Interfaces.Fadt.{
  smi_command_port, acpi_enable, pm1a_control_block, poll_control, enable_acpi,
}

-- So many reads of a 16-bit port.
unfoldable pub read_again : ℕ → ℕ → History → History
read_again zero port h = h
read_again (suc n) port h = read_again n port (read16 port ∷ h)

-- Bit 0 of what the port answers is clear.
abbrev pub is_clear : (History → Event → ℕ) → ℕ → History → Bool
is_clear answer port h = bit_and (answer h (read16 port)) 1 == 0

-- The port that is read, and the history behind the write of the command.
abbrev pub control_port : ℕ → Memory → ℕ
control_port fadt m = pm1a_control_block fadt m % 2 ^ 16

abbrev pub commanded : ℕ → Memory → History → History
commanded fadt m h = write8 (smi_command_port fadt m % 2 ^ 16) (acpi_enable fadt m % 2 ^ 8) ∷ h

module _ (answer : History → Event → ℕ) where
  poll_control-read_again :
      (fuel rounds port : ℕ) (k : Kernel History)
      → rounds < fuel
      → ((i : ℕ)
          → i < rounds
          → is_clear answer (port % 2 ^ 16) (read_again i (port % 2 ^ 16) k.bus) ≡ true)
      → is_clear answer (port % 2 ^ 16) (read_again rounds (port % 2 ^ 16) k.bus) ≡ false
      → poll_control ⦃machine = tracing answer⦄ fuel port k
        ≡ some (record k { bus = read_again (suc rounds) (port % 2 ^ 16) k.bus })
  unfolding poll_control inw read_again
  poll_control-read_again zero rounds port k enough clear set = absurd (omega arith)
  poll_control-read_again (suc fuel) zero port k enough clear set = rw set refl
  poll_control-read_again (suc fuel) (suc rounds) port k enough clear set =
      rw (clear 0 (omega arith)) (
        poll_control-read_again fuel rounds port (record k { bus = read16 (port % 2 ^ 16) ∷ k.bus })
          (omega arith) (λ i lt. clear (suc i) (omega arith)) set)

  -- Where the control register shows bit 0 clear in so many looks and set in the next one, and with
  -- fuel for one look more, `enableACPI` returns: it has written the enabling value to the command
  -- port once and looked at the register until the bit was set, and nothing else.
  pub enable_acpi-read_again :
      (fuel rounds fadt : ℕ) (m : Memory) (k : Kernel History)
      → rounds < fuel
      → ((i : ℕ)
          → i < rounds
          → is_clear answer
              (control_port fadt m)
              (read_again i (control_port fadt m) (commanded fadt m k.bus))
            ≡ true)
      → is_clear answer
          (control_port fadt m)
          (read_again rounds (control_port fadt m) (commanded fadt m k.bus))
        ≡ false
      → enable_acpi ⦃machine = tracing answer⦄ fuel fadt m k
        ≡ some (record k {
          bus = read_again (suc rounds) (control_port fadt m) (commanded fadt m k.bus);
        })
  unfolding enable_acpi outb
  enable_acpi-read_again fuel rounds fadt m k enough clear set =
      poll_control-read_again fuel rounds (pm1a_control_block fadt m) _ enough clear set
