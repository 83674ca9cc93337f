-- ===== src/Boot/Start/Disk.antt =====
-- The part of `_start` in kernel/kernel.c that reads from the disk.
use maken_os.Base.{
  ℕ, suc, ◌+◌, ◌*◌, ◌^◌, ◌≤◌, ◌<◌, ◌≡◌, refl, Option, none, some, arith, if◌then◌else◌, Memory,
}
use maken_os.Sys.{Kernel, ◌>>◌, term_write}
use maken_os.Sys.Trace.{Event, History, tracing}
use maken_os.Memory.Pmm.{MemmapEntry, address_of, block_size}
use maken_os.Memory.Pmm.Blocks.{Served, k_malloc-Ends}
use maken_os.Devices.Ahci.Command.Ends.{IsResponsive, Wrote, read_request, ahci-Wrote}
use maken_os.Devices.Ioapic.{enable_serial_com1}
use maken_os.Devices.Pci.{check_msi}
use maken_os.Devices.Ahci.{probe_port}
use maken_os.Boot.Start.{host, start_disk}

-- The kernel when the disk is read.
abbrev pub probed : (History → Event → ℕ) → ℕ → Kernel History → Kernel History
probed answer ioapicaddr k =
    ((do
      enable_serial_com1 ⦃machine = tracing answer⦄ ioapicaddr
      check_msi ⦃machine = tracing answer⦄ 0 31 2
      probe_port ⦃machine = tracing answer⦄ host)
      k).1

Served-below :
    (base length bound : ℕ) (m m1 : Memory) (s : Option ℕ)
    → Served base length 0x8000 m (s, m1)
    → base + 8 * length ≤ bound
    → 512 ≤ bound
    → address_of s + 512 ≤ bound
Served-below base length bound m m1 none served inside room = omega arith
Served-below base length bound m m1 (some p) served inside room = omega (arith, served.before)

-- In an entry of more than 0x8000 words, of a length below 2^60, whose base and eight times the length
-- together are at most 2^32, with fuel for one halving more than lead down to a block, and on a controller that clears
-- the bit of a command within as many polls as the fuel has, the part of `_start` from the serial port to
-- the disk ends: the buffer is what `k_malloc` gives for 0x8000 words, and beside it nothing is written to
-- memory where no slot is free by the answers of the port's registers, or else the command in the
-- lowest free slot of the list that the port's register names, that of a read of one sector at 2 into the
-- buffer, which is at 0 where the allocation gave NULL.
pub start_disk-Wrote :
    (answer : History → Event → ℕ) (halvings : ℕ) (memmap : MemmapEntry) (ioapicaddr : ℕ)
    (k : Kernel History) (m : Memory)
    → 0x8000 < memmap.length
    → memmap.length < 2 ^ 60
    → memmap.base + 8 * memmap.length ≤ 2 ^ 32
    → memmap.length ≤ block_size * 2 ^ halvings
    → IsResponsive answer (host + 0x100) (suc halvings)
    → (s : Option ℕ) × (m1 : Memory) × (k' : Kernel History) × (m' : Memory) × (start_disk
          ⦃machine = tracing answer⦄
          (suc halvings)
          memmap
          ioapicaddr
          k
          m
        ≡ some (k', m'))
      × Served memmap.base memmap.length 0x8000 m (s, m1)
      × Wrote answer
          (host + 0x100)
          (probed answer ioapicaddr k)
          (read_request 2 0 1 (address_of s))
          m1
          m'
unfolding start_disk
start_disk-Wrote answer halvings memmap ioapicaddr k m fits small inside enough responsive =
    let ((s, m1), runs, served) =
      k_malloc-Ends halvings 0x8000 memmap m (omega arith) small enough in
    let below =
      Served-below memmap.base memmap.length (2 ^ 32) m m1 s served inside (omega arith) in
    let (ok, k2, m2, read, wrote) =
      (ahci-Wrote answer (host + 0x100) (suc halvings) responsive 2 0 1 (address_of s)
        (probed answer ioapicaddr k) m1 (omega arith) (omega arith) (omega arith)
        (omega arith)).0 in
    (
      s,
      m1,
      if ok
          then (term_write ⦃machine = tracing answer⦄ "\nFile successfully read!\n" 25 k2).1
          else k2,
      m2,
      rw (runs, read) refl,
      served,
      wrote,
    )
