-- ===== src/Boot/Start.antt =====
-- kernel/kernel.c: `_start` from the memory map to its last loop, and the whole of it. `none` means that
-- the fuel of a loop ran out, that a division by zero or a call of NULL ended it, or that the memory
-- map has no fifth entry. The interrupts that may come once `sti` has run are not part of it.
pub mod Handlers
pub mod Disk
mod Tests
use Prim.Native.String.{len}
use maken_os.Base.{
  ℕ, ◌+◌, Option, none, some, if◌then◌else◌, List, [], ◌∷◌, get_elem?, Memory, store, read_le,
}
use maken_os.Sys.{
  Action, and_then, Machine, Kernel, pure, ◌>>=◌, ◌>>◌, term_write, term_bytes, print_number,
}
use maken_os.Memory.Pmm.{
  MemmapEntry, Output, text, number, address_of, k_malloc, set_memory_map, print_memory_maps,
}
use maken_os.Memory.Paging.{init_pml4}
use maken_os.Filesystem.Initrd.{initrd_calls, directory_node, initialise_initrd}
use maken_os.Interfaces.Madt.{Madt}
use maken_os.Interrupts.Idt.{IdtEntry, init_idt}
use maken_os.Devices.Pic.{remap_pic}
use maken_os.Devices.Apic.{enable_apic, enable_apic_timer}
use maken_os.Devices.Ioapic.{enable_keyboard, enable_serial_com1}
use maken_os.Devices.Pci.{check_msi}
use maken_os.Devices.Ahci.{probe_port}
use maken_os.Devices.Ahci.Command.{ahci_read}
use maken_os.Process.Task.{Registers, Tasks}
use maken_os.Process.Task.Run.{Call, Running, start_tasks}
use maken_os.Boot.{Text, literal, bytes, list_files}
use maken_os.Boot.Tables.{SmpResponse, start_tables}

-- What `_start` finds: the answers of the boot loader, the two control registers, and what the
-- compiler and the linker lay out (the two signatures, the buffer, the stubs, `otherMain` and the two
-- calls of `switchTask`, the second from the registers that `otherMain` starts with).
pub record BootInfo : Type 0 where
  pub rsdp : ℕ
  pub smp : Option SmpResponse
  pub entries : List MemmapEntry
  pub initrd_location : ℕ
  pub cr3 : ℕ
  pub rflags : ℕ
  pub facp : ℕ
  pub apic : ℕ
  pub buf : ℕ
  pub isr_stub_table : ℕ → ℕ
  pub irq_stub_table : ℕ → ℕ
  pub other_main : ℕ
  pub call : Call
  pub other_call : Registers → Call

-- The variables that the last part of `_start` changes.
pub record System (S : Type 0) : Type 0 where
  pub kernel : Kernel S
  pub memory : Memory
  pub tasks : Tasks
  pub idt_entries : List IdtEntry

-- `ioapics[0]->address`
abbrev pub ioapic_address : Madt → Memory → ℕ
ioapic_address t m = read_le 4 m (address_of (get_elem? t.ioapics 0) + 4)

-- `host`
abbrev pub host : ℕ
host = 0xfebd5000

abbrev pub hi_there : List ℕ
hi_there = b'h' ∷ b'i' ∷ b'_' ∷ b't' ∷ b'h' ∷ b'e' ∷ b'r' ∷ b'e' ∷ 0 ∷ []

store_all : List ℕ → ℕ → Memory → Memory
store_all [] a m = m
store_all (c ∷ cs) a m = store_all cs (a + 1) (store m a c)

-- The block `c` and the nine assignments to it.
unfoldable pub write_greeting : ℕ → MemmapEntry → Memory → Option Memory
unfolding store_all
write_greeting fuel memmap m =
    and_then (k_malloc fuel memmap 4096 m) (λ r. some (store_all hi_there (address_of r.0) r.1))

module _ {S : Type 0} ⦃machine : Machine S⦄ where
  unfoldable pub write_outputs : List Output → Action (Kernel S) (Unit {0})
  write_outputs [] = pure tt
  write_outputs (text t ∷ rest) = do term_write t (len t); write_outputs rest
  write_outputs (number n ∷ rest) = do print_number n; write_outputs rest

  unfoldable pub write_texts : List Text → Action (Kernel S) (Unit {0})
  write_texts [] = pure tt
  write_texts (literal t n ∷ rest) = do term_write t n; write_texts rest
  write_texts (bytes cs ∷ rest) = do term_bytes cs; write_texts rest

  -- `pml4`, and the entry that `setMemoryMap(4)` chooses.
  unfoldable pub start_memory : BootInfo → Action (Kernel S) (ℕ × Option MemmapEntry)
  start_memory info = do
    write_outputs (print_memory_maps info.entries)
    pure (init_pml4 info.cr3, set_memory_map info.entries 4)

  -- The serial port, the PCI bus and the read from the disk; `host->ports[0]` stands at 0x100.
  unfoldable pub start_disk : ℕ → MemmapEntry → ℕ → Kernel S → Memory → Option (Kernel S × Memory)
  start_disk fuel memmap ioapicaddr k m =
      let k1 = ((do enable_serial_com1 ioapicaddr; check_msi 0 31 2; probe_port host) k).1 in
      and_then (k_malloc fuel memmap 0x8000 m) λ s.
        and_then (ahci_read fuel (host + 0x100) 2 0 1 (address_of s.0) k1 s.1)
          λ r. some (if r.0 then (term_write "\nFile successfully read!\n" 25 r.1).1 else r.1, r.2)

  -- The ram disk and the listing of its files, in at most as many rounds as the fuel has.
  unfoldable pub start_listing :
      ℕ → MemmapEntry → BootInfo → Kernel S → Memory → Option (Kernel S × Memory)
  start_listing fuel memmap info k m =
      and_then (initialise_initrd fuel memmap info.initrd_location m) λ d.
        and_then (list_files (initrd_calls fuel d.0) fuel info.buf fuel (directory_node 0) d.1)
          λ r. some ((write_texts r.0 k).1, r.1)

  -- `remapPIC`, `initIdt` and the calls behind them, up to the end of `doIt`.
  unfoldable pub start_interrupts :
      ℕ → MemmapEntry → ℕ → BootInfo → System S → Option (Registers × System S)
  start_interrupts fuel memmap ioapicaddr info s =
      let idt = init_idt info.isr_stub_table info.irq_stub_table s.idt_entries in
      let k1 = ((do remap_pic 0x20 0x28; enable_apic) s.kernel).1 in
      and_then (enable_apic_timer fuel 10 k1) λ k2.
        and_then
          (start_tasks fuel memmap info.cr3 info.rflags info.other_main info.call info.other_call
            s.tasks s.memory (enable_keyboard ioapicaddr k2).1)
          λ r. some (r.1, record { kernel = r.3; memory = r.2; tasks = r.0; idt_entries = idt })

  -- `_start`, up to its last loop, which only halts.
  unfoldable pub start : ℕ → BootInfo → System S → Option (Registers × System S)
  start fuel info s =
      and_then (start_tables fuel info.rsdp info.facp info.apic info.smp s.memory s.kernel)
        λ parsed. and_then parsed λ t.
          let mapped = start_memory info t.1 in
          and_then mapped.0.1 λ memmap.
            and_then (start_disk fuel memmap (ioapic_address t.0 s.memory) mapped.1 s.memory) λ d.
              and_then (write_greeting fuel memmap d.1) λ m1.
                and_then (start_listing fuel memmap info d.0 m1) λ l.
                  start_interrupts fuel memmap (ioapic_address t.0 l.1) info
                    (record s { kernel = l.0; memory = l.1 })
