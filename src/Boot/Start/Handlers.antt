-- ===== src/Boot/Start/Handlers.antt =====
-- The end of `_start` in kernel/kernel.c: which handlers the interrupts find.
use maken_os.Base.{
  ℕ, suc, ◌+◌, ◌*◌, ◌^◌, ◌≤◌, ◌<◌, ◌≡◌, ◌≢◌, refl, ◌∙◌, sym, ap, arith, some, List, ◌∷◌, ◌%◌,
  Option, length, get_elem?, set, length-set, get_elem?-set_self, get_elem?-set_ne,
}
use maken_os.Sys.{
  Action, Machine, Kernel, Handler, pit_callback, apic_timer_callback, keyboard_handler, ◌>>◌, inb,
  outb, io_wait,
}
use maken_os.Sys.Trace.{History, Event, read8, write8, write_mmio, tracing}
use maken_os.Memory.Pmm.{MemmapEntry, block_size}
use maken_os.Interrupts.Isr.{InterruptFrame, irq_handler, register_interrupt_handler}
use maken_os.Interrupts.Idt.{init_idt}
use maken_os.Devices.Pic.{remap_pic}
use maken_os.Devices.Pic.Remap.{remap_pic-handlers}
use maken_os.Devices.Apic.{enable_apic}
use maken_os.Devices.Apic.Timer.{
  calibrated, enable_apic_timer-calibrated, handlers-calibrated, enable_apic-handlers,
}
use maken_os.Devices.Ioapic.{write_ioapic, enable_keyboard}
use maken_os.Process.Task.{Registers, main_task}
use maken_os.Process.Task.Laws.{IsRing}
use maken_os.Process.Task.Run.{texts, start_tasks-returns}
use maken_os.Boot.Start.{BootInfo, System, start_interrupts}

-- The table after the three registrations.
module _ (hs : List (Option Handler)) where
  abbrev timed_slots : List (Option Handler)
  timed_slots = set (set hs 32 (some pit_callback)) 32 (some apic_timer_callback)

  abbrev served : List (Option Handler)
  served = set timed_slots 0x21 (some keyboard_handler)

  served-timer : length hs ≡ 256 → get_elem? served 0x20 ≡ some (some apic_timer_callback)
  served-timer size =
      get_elem?-set_ne timed_slots 0x21 0x20 (some keyboard_handler) (λ e. absurd (omega arith))
      ∙ get_elem?-set_self (set hs 32 (some pit_callback)) 32 (some apic_timer_callback)
          (omega (arith, length-set hs 32 (some pit_callback)))

  served-keyboard : length hs ≡ 256 → get_elem? served 0x21 ≡ some (some keyboard_handler)
  served-keyboard size = get_elem?-set_self timed_slots 0x21 (some keyboard_handler) (
      omega (
        arith,
        length-set hs 32 (some pit_callback),
        length-set (set hs 32 (some pit_callback)) 32 (some apic_timer_callback),
      ))

  served-others : (n : ℕ) → n ≢ 0x20 → n ≢ 0x21 → get_elem? served n ≡ get_elem? hs n
  served-others n ne1 ne2 =
      get_elem?-set_ne timed_slots 0x21 n (some keyboard_handler) (λ e. ne2 (sym e))
      ∙ get_elem?-set_ne (set hs 32 (some pit_callback)) 32 n (some apic_timer_callback)
          (λ e. ne1 (sym e))
      ∙ get_elem?-set_ne hs 32 n (some pit_callback) (λ e. ne1 (sym e))

module _ {S : Type 0} where
  -- The interrupts with the number `n` are handled by `handler`, whatever the handlers do.
  abbrev pub Handles : ℕ → Handler → Kernel S → Type 0
  Handles n handler k =
      (run : Handler → InterruptFrame → Action (Kernel S) (Unit {0})) (frame : InterruptFrame)
      → frame.int_no ≡ n
      → irq_handler run frame k ≡ some (run handler frame k).1

  -- The handlers once `_start` is done: the interval timer, which `remapPIC` puts on vector 0x20, and the
  -- timer of the local APIC share one.
  pub record IsServed (before k : Kernel S) : Type 0 where
    pub timer : Handles 0x20 apic_timer_callback k
    pub keyboard : Handles 0x21 keyboard_handler k
    pub others :
        (n : ℕ)
        → n ≢ 0x20
        → n ≢ 0x21
        → get_elem? k.interrupt_handlers n ≡ get_elem? before.interrupt_handlers n

  Handles-of_slot :
      (n : ℕ) (handler : Handler) (k : Kernel S)
      → get_elem? k.interrupt_handlers n ≡ some (some handler)
      → Handles n handler k
  unfolding irq_handler
  Handles-of_slot n handler k slot run frame same = rw (same, slot) refl

  served-IsServed :
      (before k : Kernel S)
      → length before.interrupt_handlers ≡ 256
      → k.interrupt_handlers ≡ served before.interrupt_handlers
      → IsServed before k
  served-IsServed before k size same = record {
    timer = Handles-of_slot 0x20 apic_timer_callback k (rw same (served-timer _ size));
    keyboard = Handles-of_slot 0x21 keyboard_handler k (rw same (served-keyboard _ size));
    others = λ n ne1 ne2. rw same (served-others before.interrupt_handlers n ne1 ne2);
  }

-- The words that `remapPIC` has sent for the vectors from 0x20 and from 0x28 on, newest first: to each
-- controller four initialisation words, the second of which is its first vector, and its mask.
abbrev pub remapped : (History → Event → ℕ) → Kernel History → Kernel History
remapped answer k = record k {
  bus =
      write8 0xa1 (answer (read8 0x21 ∷ k.bus) (read8 0xa1) % 2 ^ 8)
      ∷ write8 0x21 (answer k.bus (read8 0x21) % 2 ^ 8)
      ∷ write8 0x80 0
      ∷ write8 0xa1 0x01
      ∷ write8 0x80 0
      ∷ write8 0x21 0x01
      ∷ write8 0x80 0
      ∷ write8 0xa1 2
      ∷ write8 0x80 0
      ∷ write8 0x21 4
      ∷ write8 0x80 0
      ∷ write8 0xa1 0x28
      ∷ write8 0x80 0
      ∷ write8 0x21 0x20
      ∷ write8 0x80 0
      ∷ write8 0xa0 0x11
      ∷ write8 0x80 0
      ∷ write8 0x20 0x11
      ∷ read8 0xa1
      ∷ read8 0x21
      ∷ k.bus;
}

-- The redirection entry of the keyboard's line, whose lower half is register 0x12, gets the vector 0x21.
abbrev pub routed : ℕ → History → History
routed ioapicaddr h = write_mmio (ioapicaddr + 16) 0x21 ∷ write_mmio ioapicaddr 0x12 ∷ h

-- All that the machine has seen: the vectors of the 8259s, what `enableAPIC` and `enableAPICTimer` do,
-- the keyboard's vector, and the texts of the two tasks.
abbrev pub IsRouted : (History → Event → ℕ) → ℕ → Kernel History → Kernel History → Type 0
IsRouted answer ioapicaddr before k =
    k.bus
    ≡ texts (
        routed ioapicaddr
          (calibrated ⦃machine = tracing answer⦄ 10
            (enable_apic ⦃machine = tracing answer⦄ (remapped answer before)).1).bus)

module _ (answer : History → Event → ℕ) where
  remap_pic-remapped :
      (k : Kernel History)
      → (remap_pic ⦃machine = tracing answer⦄ 0x20 0x28 k).1 ≡ remapped answer k
  unfolding remap_pic inb outb io_wait
  remap_pic-remapped k = refl

  enable_keyboard-routed :
      (a : ℕ) (k : Kernel History)
      → (enable_keyboard ⦃machine = tracing answer⦄ a k).1.bus ≡ routed a k.bus
  unfolding enable_keyboard write_ioapic register_interrupt_handler
  enable_keyboard-routed a k = refl

module _ {S : Type 0} ⦃machine : Machine S⦄ where
  enable_keyboard-handlers :
      (a : ℕ) (k : Kernel S)
      → (enable_keyboard a k).1.interrupt_handlers
        ≡ set k.interrupt_handlers 0x21 (some keyboard_handler)
  unfolding enable_keyboard write_ioapic register_interrupt_handler
  enable_keyboard-handlers a k = refl

  abbrev driven : ℕ → Kernel S → Kernel S
  driven ioapicaddr k =
      (enable_keyboard ioapicaddr (calibrated 10 ((do remap_pic 0x20 0x28; enable_apic) k).1)).1

  driven-handlers :
      (ioapicaddr : ℕ) (k : Kernel S)
      → (driven ioapicaddr k).interrupt_handlers ≡ served k.interrupt_handlers
  driven-handlers ioapicaddr k =
      enable_keyboard-handlers ioapicaddr (calibrated 10 k1)
      ∙ ap (λ (hs : List (Option Handler)). set hs 0x21 (some keyboard_handler))
          (handlers-calibrated 10 k1)
      ∙ ap served (enable_apic-handlers (remap_pic 0x20 0x28 k).1 ∙ remap_pic-handlers 0x20 0x28 k)
    where
      k1 : Kernel S
      k1 = ((do remap_pic 0x20 0x28; enable_apic) k).1

-- In an entry of more than 4096 words, of a length below 2^60 and with fuel for one halving more than
-- lead down to a block, and with a table of 256 handlers, the end of `_start`, from `remapPIC` to
-- `doIt`, ends, and control is back in the main task. The 8259s have been given the vectors from 0x20
-- and from 0x28 on, which is 0x20 for the interval timer, and the I/O APIC the vector 0x21 for the
-- keyboard, with the accesses of `enableAPIC` and `enableAPICTimer` in between. The interrupt 0x21
-- runs the keyboard's handler, 0x20 the handler of the local APIC's timer, which has replaced that of
-- the interval timer, and every other interrupt finds what it found before.
pub start_interrupts-IsServed :
    (answer : History → Event → ℕ) (halvings : ℕ) (memmap : MemmapEntry) (ioapicaddr : ℕ)
    (info : BootInfo) (s : System History)
    → 4096 + 1 ≤ memmap.length
    → memmap.length < 2 ^ 60
    → memmap.length ≤ block_size * 2 ^ halvings
    → length s.kernel.interrupt_handlers ≡ 256
    → (cpu : Registers) × (s' : System History) × (start_interrupts ⦃machine = tracing answer⦄
          (suc halvings)
          memmap
          ioapicaddr
          info
          s
        ≡ some (cpu, s'))
      × IsServed s.kernel s'.kernel
      × IsRouted answer ioapicaddr s.kernel s'.kernel
      × IsRing s'.tasks
      × (s'.tasks.running_task ≡ some main_task)
unfolding start_interrupts
start_interrupts-IsServed answer halvings memmap ioapicaddr info s fits small enough size =
    let k : Kernel History = driven ⦃machine = tracing answer⦄ ioapicaddr s.kernel in
    let (r, t', m', runs, back) =
      start_tasks-returns answer halvings memmap info.cr3 info.rflags info.other_main info.call
        info.other_call s.tasks s.memory k fits small enough in
    (
      r.1,
      record {
        kernel = r.3;
        memory = r.2;
        tasks = r.0;
        idt_entries = init_idt info.isr_stub_table info.irq_stub_table s.idt_entries;
      },
      rw
          (
            enable_apic_timer-calibrated ⦃machine = tracing answer⦄ (suc halvings) 10
                ((do
                  remap_pic ⦃machine = tracing answer⦄ 0x20 0x28
                  enable_apic ⦃machine = tracing answer⦄)
                  s.kernel).1
                (omega arith) (omega arith) (omega arith),
            runs,
          )
          refl,
      served-IsServed s.kernel r.3 size (
          ap (λ (k : Kernel History). k.interrupt_handlers) back.kernel
          ∙ driven-handlers ⦃machine = tracing answer⦄ ioapicaddr s.kernel),
      ap (λ (k : Kernel History). k.bus) back.kernel
          ∙ ap texts (enable_keyboard-routed answer ioapicaddr _)
          ∙ ap
              (λ (k : Kernel History). texts (
                routed ioapicaddr
                  (calibrated ⦃machine = tracing answer⦄ 10
                    (enable_apic ⦃machine = tracing answer⦄ k).1).bus))
              (remap_pic-remapped answer s.kernel),
      back.ring,
      back.main,
    )
