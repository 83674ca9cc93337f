-- ===== src/Devices/Ahci.antt =====
-- kernel/devices/ahci.c: the ports of a SATA controller. The registers of a port stand at its
-- address and the offsets of `HBA_PORT`; a loop that polls takes fuel.
pub mod Slots
pub mod Table
pub mod Command
pub mod Port
use maken_os.Base.{
  ℕ, zero, suc, ◌+◌, ◌-◌, ◌*◌, ◌%◌, ◌^◌, Option, none, some, ◌==◌, ◌!=◌, if◌then◌else◌, bit_and,
  bit_or, ◌>>>◌,
}
use maken_os.Sys.{
  Action, Machine, Kernel, pure, ◌>>=◌, ◌>>◌, read32, write32, term_write, print_number,
}

-- Where the members of `HBA_PORT` stand that the functions below use.
abbrev pub port_cmd : ℕ
port_cmd = 0x18

abbrev pub port_sig : ℕ
port_sig = 0x24

abbrev pub port_ssts : ℕ
port_ssts = 0x28

abbrev pub port_sact : ℕ
port_sact = 0x34

abbrev pub port_ci : ℕ
port_ci = 0x38

-- The values that `checkType` returns.
pub data DeviceType : Type 0 where
  null sata semb pm satapi : DeviceType

-- The decision of `checkType` on the two registers that it reads.
unfoldable pub device_type : ℕ → ℕ → DeviceType
device_type ssts sig =
    let ipm = bit_and (ssts >>> 8) 0x0f in
    let det = bit_and ssts 0x0f in
    if det != 3
    then null
    else if ipm != 1
    then null
    else if sig == 0xeb140101
    then satapi
    else if sig == 0xc33c0101
    then semb
    else if sig == 0x96690101
    then pm
    else sata

-- The loop of `findCMDSlot` at index `i`: the free slot, `none` for -1.
slot_from : ℕ → ℕ → ℕ → Option ℕ
slot_from zero i slots = none
slot_from (suc left) i slots =
    let rest = slot_from left (i + 1) (slots >>> 1) in if bit_and slots 1 == 0 then some i else rest

unfoldable pub free_slot : ℕ → ℕ → ℕ → Option ℕ
unfolding slot_from
free_slot sact ci cmd_slots = slot_from cmd_slots 0 (bit_or sact ci)

module _ {S : Type 0} ⦃machine : Machine S⦄ where
  -- The signature is read only for a device that is present and active.
  unfoldable pub check_type : ℕ → Action (Kernel S) DeviceType
  check_type port = do
    ssts ← read32 (port + port_ssts)
    if bit_and ssts 0x0f == 3
        then (if bit_and (ssts >>> 8) 0x0f == 1
            then (do sig ← read32 (port + port_sig); pure (device_type ssts sig))
            else pure null)
        else pure null

  -- What follows the loop of `findCMDSlot`.
  unfoldable pub report_slot : Option ℕ → Action (Kernel S) (Option ℕ)
  report_slot none = do term_write "Cannot find free command list entry\n" 36; pure none
  report_slot (some i) = pure (some i)

  unfoldable pub find_cmd_slot : ℕ → ℕ → Action (Kernel S) (Option ℕ)
  find_cmd_slot port cmd_slots = do
    sact ← read32 (port + port_sact)
    ci ← read32 (port + port_ci)
    report_slot (free_slot sact ci cmd_slots)

  -- The message of `probePort` for a type of device, with its length.
  report : DeviceType → Action (Kernel S) (Unit {0})
  report sata = term_write "SATA drive found at port \n" 26
  report satapi = term_write "SATAPI drive found at port \n" 28
  report semb = term_write "SEMB drive found at port \n" 26
  report pm = term_write "PM drive found at port \n" 24
  report null = term_write "No drive found at port \n" 24

  -- `abar->ports[i]` stands at 0x100 + 0x80 * i.
  probe_from : ℕ → ℕ → ℕ → ℕ → Action (Kernel S) (Unit {0})
  probe_from zero i pi abar = pure tt
  probe_from (suc left) i pi abar = do
    if bit_and pi 1 == 0
        then pure tt
        else (do found ← check_type (abar + 0x100 + 0x80 * i); report found; print_number i)
    probe_from left (i + 1) (pi >>> 1) abar

  -- `abar->pi` stands at 0x0c.
  unfoldable pub probe_port : ℕ → Action (Kernel S) (Unit {0})
  unfolding probe_from report
  probe_port abar = do pi ← read32 (abar + 0x0c); probe_from 32 0 pi abar
