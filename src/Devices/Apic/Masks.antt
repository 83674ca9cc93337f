-- ===== src/Devices/Apic/Masks.antt =====
-- The lines of the 8259 controllers that `enableAPIC` and `enableAPICTimer` of kernel/devices/apic.c
-- leave masked.
use Prim.Native.String.{String}
use maken_os.Base.{ℕ, ◌/◌, ◌<◌, ◌≡◌, refl, ◌∙◌, ap, arith, some, true, ltb, ◌==◌, if◌then◌else◌}
use maken_os.Sys.{Machine, Kernel, pit_callback, ◌>>◌, outb, term_write}
use maken_os.Interrupts.Isr.{register_interrupt_handler}
use maken_os.Devices.Pic.{data_port, disable_all_irqs}
use maken_os.Devices.Pic.Masks.{IsDataPort, MaskPorts, masked, all_irqs_lem, clear_mask_irq_lem}
use maken_os.Devices.Pit.{send_divisor, set_frequency}
use maken_os.Devices.Apic.{
  cpu_get_msr, cpu_set_msr, cpu_get_apic_base, cpu_set_apic_base, read_apic_register,
  write_apic_register, enable_apic, enable_apic_timer, start_count, finish_count,
}
use maken_os.Devices.Apic.Timer.{timed, calibrated, enable_apic_timer-calibrated}

-- What is not one of the two data ports leaves the masks of the controllers alone.
pub record KeepsMasks {S : Type 0} (machine : Machine S) (mask : ℕ → S → ℕ) : Type 0 where
  pub port :
      (port other v : ℕ) (s : S)
      → (IsDataPort port → ⊥)
      → IsDataPort other
      → mask other (machine.write_port8 port v s).1 ≡ mask other s
  pub read_register : (a p : ℕ) (s : S) → mask p (machine.read_register a s).1 ≡ mask p s
  pub write_register : (a v p : ℕ) (s : S) → mask p (machine.write_register a v s).1 ≡ mask p s
  pub read_msr : (r p : ℕ) (s : S) → mask p (machine.read_msr r s).1 ≡ mask p s
  pub write_msr : (r lo hi p : ℕ) (s : S) → mask p (machine.write_msr r lo hi s).1 ≡ mask p s
  pub write_text : (t : String) (n p : ℕ) (s : S) → mask p (machine.write_text t n s).1 ≡ mask p s
  pub write_number : (n p : ℕ) (s : S) → mask p (machine.write_number n s).1 ≡ mask p s

module _ {S : Type 0} ⦃machine : Machine S⦄ {mask : ℕ → S → ℕ} (laws : MaskPorts machine mask)
    (keeps : KeepsMasks machine mask) where
  abbrev quiet : Kernel S → Kernel S
  quiet k = ((do term_write "Enabling APIC\n" 14; outb 0xa1 0xff; outb 0x21 0xff) k).1

  -- What `enableAPIC` does behind `disableAllIRQs`.
  behind :
      (j : ℕ) (k : Kernel S)
      → masked laws j (enable_apic k).1 ≡ masked laws j (disable_all_irqs (quiet k)).1
  unfolding enable_apic write_apic_register read_apic_register cpu_get_apic_base cpu_set_apic_base
      cpu_get_msr cpu_set_msr
  behind j k = simp (
    keeps.write_text, keeps.write_register, keeps.read_register, keeps.read_msr, keeps.write_msr,
    keeps.write_number,
  )

  enable_apic-masked : (j : ℕ) (k : Kernel S) → j < 16 → masked laws j (enable_apic k).1 ≡ 1
  enable_apic-masked j k h = behind j k ∙ (all_irqs_lem laws j (quiet k) h).0

  finish-masked :
      (frequency j : ℕ) (k : Kernel S)
      → masked laws j (calibrated frequency k) ≡ masked laws j (timed frequency k)
  unfolding calibrated start_count finish_count write_apic_register read_apic_register
      cpu_get_apic_base cpu_get_msr register_interrupt_handler
  finish-masked frequency j k =
      simp (keeps.write_text, keeps.write_register, keeps.read_register, keeps.read_msr)

  -- What `initPIT` does before `clearMaskIRQ`.
  before_unmask : ℕ → Kernel S → Kernel S
  before_unmask frequency k =
      ((do
        term_write "Initializing timer\n" 19
        register_interrupt_handler 32 pit_callback
        set_frequency frequency
        send_divisor (1193180 / frequency)
        term_write "Timer initialized\n" 18)
        k).1

  timer_port-mask :
      (port v j : ℕ) (s : S)
      → ltb 0x3f port ≡ true
      → ltb port 0x44 ≡ true
      → mask (data_port j) (machine.write_port8 port v s).1 ≡ mask (data_port j) s
  timer_port-mask port v j s lo hi =
      keeps.port port (data_port j) v s (λ e. ground arith) (ground arith)

  before-masked :
      (frequency j : ℕ) (k : Kernel S) → masked laws j (before_unmask frequency k) ≡ masked laws j k
  unfolding before_unmask send_divisor outb register_interrupt_handler
  before-masked frequency j k = simp (
    keeps.write_text,
    λ (v : ℕ) (s : S). timer_port-mask 0x43 v j s refl refl,
    λ (v : ℕ) (s : S). timer_port-mask 0x40 v j s refl refl,
  )

  timed-masked :
      (frequency j : ℕ) (k : Kernel S)
      → j < 16
      → masked laws j (timed frequency k) ≡ (if 0 == j then 0 else masked laws j k)
  unfolding timed before_unmask
  timed-masked frequency j k h =
      clear_mask_irq_lem laws 0 j (before_unmask frequency k) (omega arith) h
      ∙ ap (λ (x : ℕ). if 0 == j then 0 else x) (before-masked frequency j k)

  -- On a machine whose 8259 controllers hold their masks behind their data ports, and where nothing
  -- else changes the masks: `enableAPIC` and then `enableAPICTimer`, for a frequency below 1000 and not 0,
  -- end, and of the sixteen lines that `enableAPIC` has masked the line of the interval timer is open
  -- again, and no other.
  pub enable_apic_timer-masked :
      (fuel frequency : ℕ) (k : Kernel S)
      → 0 < fuel
      → 0 < frequency
      → frequency < 1000
      → (k' : Kernel S) × (enable_apic_timer fuel frequency (enable_apic k).1 ≡ some k')
        × ((j : ℕ) → j < 16 → masked laws j (enable_apic k).1 ≡ 1)
        × ((j : ℕ) → j < 16 → masked laws j k' ≡ (if 0 == j then 0 else 1))
  enable_apic_timer-masked fuel frequency k some_fuel positive low = (
    calibrated frequency (enable_apic k).1,
    enable_apic_timer-calibrated fuel frequency (enable_apic k).1 some_fuel positive low,
    λ j h. enable_apic-masked j k h,
    λ j h.
        finish-masked frequency j (enable_apic k).1
        ∙ timed-masked frequency j (enable_apic k).1 h
        ∙ ap (λ (x : ℕ). if 0 == j then 0 else x) (enable_apic-masked j k h),
  )
