-- ===== src/Devices/Ahci/Command.antt =====
-- kernel/devices/ahci.c: `runCommand`, `ahci_read` and `ahci_write`. The memory beside the kernel is
-- what the processor writes; what the device transfers is not in it.
pub mod Laws
pub mod Ends
mod Tests
use maken_os.Base.{
  ℕ, zero, suc, ◌+◌, ◌*◌, ◌%◌, ◌^◌, Bool, true, false, Option, none, some, ◌==◌, if◌then◌else◌,
  bit_and, Memory,
}
use maken_os.Sys.{Action, Machine, Kernel, and_then, pure, ◌>>=◌, ◌>>◌, read32, write32, term_write}
use maken_os.Devices.Ahci.{port_ci, find_cmd_slot}
use maken_os.Devices.Ahci.Table.{Request, cmd_header_size, prepare}

abbrev pub port_clb : ℕ
port_clb = 0x00

abbrev pub port_is : ℕ
port_is = 0x10

abbrev pub port_tfd : ℕ
port_tfd = 0x20

-- `HBA_PxIS_TFES`
abbrev pub task_file_error : ℕ
task_file_error = 2 ^ 30

module _ {S : Type 0} ⦃machine : Machine S⦄ where
  -- The loop on the busy bits with `left` rounds left: whether the port is hung.
  spin_from : ℕ → ℕ → Action (Kernel S) Bool
  spin_from zero port = do read32 (port + port_tfd); pure true
  spin_from (suc left) port = do
    tfd ← read32 (port + port_tfd)
    if bit_and tfd 0x88 == 0 then pure false else spin_from left port

  unfoldable pub fail : Action (Kernel S) Bool
  fail = do term_write "Read disk error\n" 16; pure false

  -- The check behind the loop.
  unfoldable pub final_check : ℕ → Action (Kernel S) Bool
  final_check port = do
    status ← read32 (port + port_is)
    if bit_and status task_file_error == 0 then pure true else fail

  -- The loop that waits for the slot's bit of `ci`. `none` means that the fuel ran out.
  unfoldable pub wait_from : ℕ → ℕ → ℕ → Kernel S → Option (Bool × Kernel S)
  wait_from zero port slot k = none
  wait_from (suc fuel) port slot k =
      let ci = read32 (port + port_ci) k in
      let status = read32 (port + port_is) ci.1 in
      let rest = wait_from fuel port slot status.1 in
      if bit_and ci.0 (2 ^ slot) == 0
      then some (final_check port ci.1)
      else if bit_and status.0 task_file_error == 0
      then rest
      else some (fail status.1)

  -- From the busy loop on, with the number of its rounds.
  unfoldable pub issue : ℕ → ℕ → ℕ → ℕ → Kernel S → Option (Bool × Kernel S)
  unfolding spin_from
  issue fuel spins port slot k =
      let spun = spin_from spins port k in
      if spun.0
      then some ((do term_write "Port is hung\n" 13; pure false) spun.1)
      else wait_from fuel port slot (write32 (port + port_ci) (2 ^ slot % 2 ^ 32) spun.1).1

  -- From the test of the slot on.
  unfoldable pub run_in_slot :
      ℕ → ℕ → Request → Memory → Option ℕ × Kernel S → Option (Bool × Kernel S × Memory)
  run_in_slot fuel port q m (none, k) = some (false, k, m)
  run_in_slot fuel port q m (some slot, k) =
      let clb = read32 (port + port_clb) k in
      let m' = prepare (clb.0 + cmd_header_size * slot) q m in
      and_then (issue fuel 1000000 port slot clb.1) (λ r. some (r.0, r.1, m'))

  unfoldable pub run_command :
      ℕ → ℕ → Request → Kernel S → Memory → Option (Bool × Kernel S × Memory)
  unfolding run_in_slot
  run_command fuel port q k m =
      run_in_slot fuel port q m (find_cmd_slot port 32 (write32 (port + port_is) 0xffffffff k).1)

  unfoldable pub ahci_read :
      ℕ → ℕ → ℕ → ℕ → ℕ → ℕ → Kernel S → Memory → Option (Bool × Kernel S × Memory)
  ahci_read fuel port start_l start_h count buf = run_command fuel port (record {
    kind = 0x25;
    write = 0;
    start_l = start_l;
    start_h = start_h;
    count = count;
    buf = buf;
  })

  unfoldable pub ahci_write :
      ℕ → ℕ → ℕ → ℕ → ℕ → ℕ → Kernel S → Memory → Option (Bool × Kernel S × Memory)
  ahci_write fuel port start_l start_h count buf = run_command fuel port (record {
    kind = 0x35;
    write = 1;
    start_l = start_l;
    start_h = start_h;
    count = count;
    buf = buf;
  })
