-- ===== src/Devices/Ahci/Port.antt =====
-- kernel/devices/ahci.c: starting, stopping and rebasing a port. The loops that poll take fuel:
-- `none` means that it ran out.
pub mod Laws
mod Tests
use maken_os.Base.{
  ℕ, zero, suc, ◌+◌, ◌-◌, ◌*◌, ◌%◌, ◌^◌, Option, none, some, ◌==◌, if◌then◌else◌, bit_and, bit_or,
  ◌<<<◌, Memory, write_le,
}
use maken_os.Sys.{Action, Machine, Kernel, and_then, pure, ◌>>=◌, ◌>>◌, read32, write32}
use maken_os.Klib.Mem.{memset}
use maken_os.Devices.Ahci.{port_cmd}
use maken_os.Devices.Ahci.Table.{cmd_header_size}
use maken_os.Devices.Ahci.Command.{port_clb}

-- `AHCI_BASE`
abbrev pub ahci_base : ℕ
ahci_base = 0x400000

abbrev pub port_clbu : ℕ
port_clbu = 0x04

abbrev pub port_fb : ℕ
port_fb = 0x08

abbrev pub port_fbu : ℕ
port_fbu = 0x0c

-- The headers of the loop of `portRebase`, from index `i` on: `prdtl` at 2, `ctba` at 8 and `ctbau`
-- at 12. `ctba` has 32 bits.
unfoldable pub rebase_headers : ℕ → ℕ → ℕ → ℕ → Memory → Memory
rebase_headers zero i clb port_no m = m
rebase_headers (suc left) i clb port_no m =
    let header = clb + cmd_header_size * i in
    let ctba = (ahci_base + (40 <<< 10) + (port_no <<< 13) + (i <<< 8)) % 2 ^ 32 in
    let m1 = write_le 2 m (header + 2) 8 in
    let m2 = write_le 4 m1 (header + 8) ctba in
    let m3 = write_le 4 m2 (header + 12) 0 in
    rebase_headers left (i + 1) clb port_no (memset ctba 0 0x100 m3)

module _ {S : Type 0} ⦃machine : Machine S⦄ where
  -- `while (port->cmd & HBA_PxCMD_CR);`
  wait_stopped : ℕ → ℕ → Kernel S → Option (Kernel S)
  wait_stopped zero port k = none
  wait_stopped (suc fuel) port k =
      let cmd = read32 (port + port_cmd) k in
      let rest = wait_stopped fuel port cmd.1 in
      if bit_and cmd.0 0x8000 == 0 then some cmd.1 else rest

  unfoldable pub start_cmd : ℕ → ℕ → Kernel S → Option (Kernel S)
  unfolding wait_stopped
  start_cmd fuel port k = and_then (wait_stopped fuel port k) (λ k1. some (enable k1).1)
    where
      enable : Action (Kernel S) (Unit {0})
      enable = do
        cmd ← read32 (port + port_cmd)
        write32 (port + port_cmd) (bit_or cmd 0x0010)
        cmd ← read32 (port + port_cmd)
        write32 (port + port_cmd) (bit_or cmd 0x0001)

  -- The loop of `stopCMD`: two reads in a round that finds FR clear.
  wait_idle : ℕ → ℕ → Kernel S → Option (Kernel S)
  wait_idle zero port k = none
  wait_idle (suc fuel) port k =
      let receiving = read32 (port + port_cmd) k in
      let running = read32 (port + port_cmd) receiving.1 in
      let rest = wait_idle fuel port in
      if bit_and receiving.0 0x4000 == 0
      then (if bit_and running.0 0x8000 == 0 then some running.1 else rest running.1)
      else rest receiving.1

  unfoldable pub stop_cmd : ℕ → ℕ → Kernel S → Option (Kernel S)
  unfolding wait_idle
  stop_cmd fuel port k = wait_idle fuel port (disable k).1
    where
      disable : Action (Kernel S) (Unit {0})
      disable = do
        cmd ← read32 (port + port_cmd)
        write32 (port + port_cmd) (bit_and cmd (2 ^ 32 - 1 - 0x0001))
        cmd ← read32 (port + port_cmd)
        write32 (port + port_cmd) (bit_and cmd (2 ^ 32 - 1 - 0x0010))

  -- The lists of a stopped port: the registers, and the memory that is cleared and filled. The
  -- addresses are those that the registers read back.
  unfoldable pub place_lists : ℕ → ℕ → Memory → Action (Kernel S) Memory
  place_lists port port_no m = do
    write32 (port + port_clb) ((ahci_base + (port_no <<< 10)) % 2 ^ 32)
    write32 (port + port_clbu) 0
    clb ← read32 (port + port_clb)
    let m1 = memset clb 0 0x400 m
    write32 (port + port_fb) ((ahci_base + (32 <<< 10) + (port_no <<< 8)) % 2 ^ 32)
    write32 (port + port_fbu) 0
    fb ← read32 (port + port_fb)
    let m2 = memset fb 0 0x100 m1
    clb ← read32 (port + port_clb)
    pure (rebase_headers 32 0 clb port_no m2)

  unfoldable pub port_rebase : ℕ → ℕ → ℕ → Kernel S → Memory → Option (Kernel S × Memory)
  port_rebase fuel port port_no k m = and_then (stop_cmd fuel port k) λ k1.
      let placed = place_lists port port_no m k1 in
      and_then (start_cmd fuel port placed.1) (λ k2. some (k2, placed.0))
