-- ===== src/Devices/Apic/Timer.antt =====
-- `enableAPIC` and `enableAPICTimer` of kernel/devices/apic.c: the handlers that they register, and
-- the lines of the 8259 controllers that they leave masked.
use maken_os.Base.{ℕ, ◌/◌, ◌<◌, ◌≡◌, refl, arith, some, ◌==◌, false, set}
use maken_os.Sys.{Machine, Kernel, pit_callback, apic_timer_callback, inb, outb, ◌>>◌, term_write}
use maken_os.Interrupts.Isr.{register_interrupt_handler}
use maken_os.Devices.Pic.{clear_mask_irq}
use maken_os.Devices.Pic.Remap.{disable_all_irqs-handlers}
use maken_os.Devices.Pit.{init_pit, set_frequency, send_divisor}
use maken_os.Devices.Pit.Laws.{pit_sleep-halts}
use maken_os.Devices.Apic.{
  cpu_get_msr, cpu_set_msr, cpu_get_apic_base, cpu_set_apic_base, read_apic_register,
  write_apic_register, enable_apic, enable_apic_timer, start_count, finish_count,
}

module _ {S : Type 0} ⦃machine : Machine S⦄ where
  -- The kernel that `initPIT` leaves.
  unfoldable pub timed : ℕ → Kernel S → Kernel S
  timed frequency k =
      ((do
        term_write "Initializing timer\n" 19
        register_interrupt_handler 32 pit_callback
        set_frequency frequency
        send_divisor (1193180 / frequency)
        term_write "Timer initialized\n" 18
        clear_mask_irq 0)
        k).1

  -- The kernel that `enableAPICTimer` leaves where `PIT_sleep` does not sleep.
  unfoldable pub calibrated : ℕ → Kernel S → Kernel S
  unfolding timed start_count finish_count
  calibrated frequency k = (finish_count (start_count (timed frequency k)).1).1

  init_pit-timed :
      (frequency : ℕ) (k : Kernel S)
      → 0 < frequency
      → init_pit frequency k ≡ some (tt, timed frequency k)
  unfolding init_pit timed
  init_pit-timed frequency k positive =
      let test : (frequency == 0) ≡ false = ground arith in rw test refl

  abbrev counting : ℕ → Kernel S → Kernel S
  unfolding start_count
  counting frequency k = (start_count (timed frequency k)).1

  frequency-counting : (frequency : ℕ) (k : Kernel S) → (counting frequency k).frequency ≡ frequency
  unfolding timed start_count write_apic_register cpu_get_apic_base cpu_get_msr send_divisor outb
      clear_mask_irq inb
  frequency-counting frequency k = refl

  pub enable_apic_timer-calibrated :
      (fuel frequency : ℕ) (k : Kernel S)
      → 0 < fuel
      → 0 < frequency
      → frequency < 1000
      → enable_apic_timer fuel frequency k ≡ some (calibrated frequency k)
  unfolding enable_apic_timer calibrated
  enable_apic_timer-calibrated fuel frequency k some_fuel positive low =
      let same = frequency-counting frequency k in
      let sleeps =
        (pit_sleep-halts fuel 10 (counting frequency k) (omega arith) (omega arith)).1
          (omega arith) in
      rw (init_pit-timed frequency k positive, sleeps) refl

  -- The handler of the interval timer is replaced: both use vector 32.
  pub handlers-calibrated :
      (frequency : ℕ) (k : Kernel S)
      → (calibrated frequency k).interrupt_handlers
        ≡ set (set k.interrupt_handlers 32 (some pit_callback)) 32 (some apic_timer_callback)
  unfolding calibrated timed start_count finish_count write_apic_register read_apic_register
      cpu_get_apic_base cpu_get_msr send_divisor outb clear_mask_irq inb register_interrupt_handler
  handlers-calibrated frequency k = refl

  pub enable_apic-handlers :
      (k : Kernel S) → (enable_apic k).1.interrupt_handlers ≡ k.interrupt_handlers
  unfolding enable_apic write_apic_register read_apic_register cpu_get_apic_base cpu_set_apic_base
      cpu_get_msr cpu_set_msr outb
  enable_apic-handlers k = disable_all_irqs-handlers _
