-- ===== src/Boot/Start/Tests.antt =====
-- Runs of parts of `_start` in kernel/kernel.c.
use maken_os.Base.{ℕ, ◌+◌, ◌^◌, Option, Memory, zero_bit_and, ◌≡◌, refl, arith, some, none, []}
use maken_os.Sys.Trace.{History, Event, tracing, booted}
use maken_os.Sys.{Kernel}
use maken_os.Memory.Pmm.{MemmapEntry, address_of}
use maken_os.Memory.Pmm.Blocks.{Served}
use maken_os.Devices.Ahci.Command.Laws.{polls}
use maken_os.Devices.Ahci.Command.Ends.{IsResponsive, Wrote, read_request}
use maken_os.Process.Task.{Registers, main_task}
use maken_os.Process.Task.Laws.{IsRing}
use maken_os.Process.Task.Sample.{tasks, call_at, call_below}
use maken_os.Boot.Start.{BootInfo, System, host, start_disk, start_interrupts}
use maken_os.Boot.Start.Disk.{probed, start_disk-Wrote}
use maken_os.Boot.Start.Handlers.{IsServed, IsRouted, start_interrupts-IsServed}

abbrev usable : MemmapEntry
usable = record { base = 0x10000; length = 0x2000; kind = 0 }

abbrev info : BootInfo
info = record {
  rsdp = 0x500;
  smp = none;
  entries = [];
  initrd_location = 0x600;
  cr3 = 0x1000;
  rflags = 2;
  facp = 0x700;
  apic = 0x708;
  buf = 0x800;
  isr_stub_table = λ i. 0x3000 + i;
  irq_stub_table = λ i. 0x4000 + i;
  other_main = 0x200;
  call = call_at 8 0x123;
  other_call = call_below 0x456;
}

abbrev before : System History
before = record { kernel = booted; memory = λ a. 0; tasks = tasks; idt_entries = [] }

abbrev silent : History → Event → ℕ
silent h e = 0

start_interrupts-IsServed_example :
    (cpu : Registers) × (s' : System History) × (start_interrupts ⦃machine = tracing silent⦄ 2
        usable 0x5000 info before
      ≡ some (cpu, s'))
    × IsServed booted s'.kernel
    × IsRouted silent 0x5000 booted s'.kernel
    × IsRing s'.tasks
    × (s'.tasks.running_task ≡ some main_task)
start_interrupts-IsServed_example =
    start_interrupts-IsServed silent 1 usable 0x5000 info before (omega arith) (omega arith)
      (omega arith) refl

-- A controller whose registers are all clear.
silent-IsResponsive : (port : ℕ) → IsResponsive silent port 6
unfolding polls
silent-IsResponsive port slot h = (0, omega arith, ground (arith, zero_bit_and (2 ^ slot)))

abbrev large : MemmapEntry
large = record { base = 0x100000; length = 0x20000; kind = 0 }

abbrev blank : Memory
blank a = 0

start_disk-Wrote_example :
    (s : Option ℕ) × (m1 : Memory) × (k' : Kernel History) × (m' : Memory) × (start_disk
        ⦃machine = tracing silent⦄ 6 large 0x5000 booted blank
      ≡ some (k', m'))
    × Served 0x100000 0x20000 0x8000 blank (s, m1)
    × Wrote silent
        (host + 0x100)
        (probed silent 0x5000 booted)
        (read_request 2 0 1 (address_of s))
        m1
        m'
start_disk-Wrote_example =
    start_disk-Wrote silent 5 large 0x5000 booted blank (omega arith) (omega arith) (omega arith)
      (omega arith) (silent-IsResponsive (host + 0x100))
