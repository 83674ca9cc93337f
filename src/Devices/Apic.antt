-- ===== src/Devices/Apic.antt =====
-- kernel/devices/apic.c: the local interrupt controller and its timer, without physical address
-- extension, the way the file is built.
pub mod Laws
pub mod Timer
pub mod Masks
pub mod Device
mod Tests
use maken_os.Base.{
  ℕ, ◌+◌, ◌-◌, ◌%◌, ◌^◌, Option, none, some, ℤ, pos, negsuc, ltb, if◌then◌else◌, bit_and, bit_or,
}
use maken_os.Sys.{
  Action, and_then, Machine, Kernel, apic_timer_callback, on_bus, pure, ◌>>=◌, ◌>>◌, outb, read32,
  write32, term_write, print_number,
}
use maken_os.Interrupts.Isr.{register_interrupt_handler}
use maken_os.Devices.Pic.{disable_all_irqs}
use maken_os.Devices.Pit.{init_pit, pit_sleep}

abbrev pub ia32_apic_base_msr : ℕ
ia32_apic_base_msr = 0x1b

-- What `cpuid` answers for a leaf.
pub record Cpuid : Type 0 where
  pub eax : ℕ
  pub ebx : ℕ
  pub ecx : ℕ
  pub edx : ℕ

-- `CPUID_FLAG_MSR` and `CPUID_FEAT_EDX_APIC`; the second one is bit 9.
abbrev pub cpuid_flag_msr : ℕ
cpuid_flag_msr = 2 ^ 5

abbrev pub cpuid_feat_edx_apic : ℕ
cpuid_feat_edx_apic = 2 ^ 9

-- The three questions to the processor, which nothing calls. `cpuid` is the instruction.
unfoldable pub cpu_has_msr : (ℕ → Cpuid) → ℕ
cpu_has_msr cpuid = bit_and (cpuid 1).edx cpuid_flag_msr

-- The `int` that the 32 bits of EBX are.
unfoldable pub get_model : (ℕ → Cpuid) → ℤ
get_model cpuid =
    let ebx = (cpuid 0).ebx % 2 ^ 32 in
    if ltb ebx (2 ^ 31) then pos ebx else negsuc (2 ^ 32 - 1 - ebx)

-- `__get_cpuid` answers only for a leaf that the processor has; `edx` is what the variable holds
-- before. The result is an `int`.
unfoldable pub check_apic : (ℕ → Option Cpuid) → ℕ → ℕ
check_apic get_cpuid edx =
    bit_and (elim (get_cpuid 1) [ none ↦ edx | some answer ↦ answer.edx ]) cpuid_feat_edx_apic

module _ {S : Type 0} ⦃machine : Machine S⦄ where
  unfoldable pub cpu_get_msr : ℕ → Action (Kernel S) (ℕ × ℕ)
  cpu_get_msr msr = on_bus (machine.read_msr msr)

  unfoldable pub cpu_set_msr : ℕ → ℕ → ℕ → Action (Kernel S) (Unit {0})
  cpu_set_msr msr lo hi = on_bus (machine.write_msr msr lo hi)

  unfoldable pub cpu_get_apic_base : Action (Kernel S) ℕ
  unfolding cpu_get_msr
  cpu_get_apic_base = do r ← cpu_get_msr ia32_apic_base_msr; pure (bit_and r.0 0xfffff000)

  -- The mask has one digit more than that of `cpuGetAPICBase`; `eax` has 32 bits.
  unfoldable pub cpu_set_apic_base : ℕ → Action (Kernel S) (Unit {0})
  unfolding cpu_set_msr
  cpu_set_apic_base apic =
      cpu_set_msr ia32_apic_base_msr (bit_or (bit_and apic 0xfffff0000) 0x800 % 2 ^ 32) 0

  unfoldable pub read_apic_register : ℕ → Action (Kernel S) ℕ
  unfolding cpu_get_apic_base
  read_apic_register reg = do base ← cpu_get_apic_base; read32 (base + reg)

  unfoldable pub write_apic_register : ℕ → ℕ → Action (Kernel S) (Unit {0})
  unfolding cpu_get_apic_base
  write_apic_register reg value = do base ← cpu_get_apic_base; write32 (base + reg) value

  unfoldable pub enable_apic : Action (Kernel S) (Unit {0})
  enable_apic = do
    term_write "Enabling APIC\n" 14
    outb 0xa1 0xff
    outb 0x21 0xff
    disable_all_irqs
    base ← cpu_get_apic_base
    cpu_set_apic_base base
    base ← cpu_get_apic_base
    print_number base
    spurious ← read_apic_register 0xf0
    write_apic_register 0xf0 (bit_or spurious 0x1ff)
    term_write "APIC enabled!\n" 14

  -- `APIC_timer_callback`
  unfoldable pub on_apic_timer : Action (Kernel S) (Unit {0})
  on_apic_timer = write_apic_register 0xb0 0

  start_count : Action (Kernel S) (Unit {0})
  start_count = do
    write_apic_register 0x3e0 0x3
    write_apic_register 0x380 0xffffffff
    term_write "Calibrating APIC Timer\n" 24

  finish_count : Action (Kernel S) (Unit {0})
  finish_count = do
    term_write "Finished Calibration\n" 22
    write_apic_register 0x320 0x10000
    left ← read_apic_register 0x390
    write_apic_register 0x320 (bit_or 0x20 0x60000)
    write_apic_register 0x3e0 0x3
    write_apic_register 0x380 ((2 ^ 32 + 0xffffffff - left) % 2 ^ 32)
    register_interrupt_handler 32 apic_timer_callback

  -- `none` is the division by zero of `initPIT`, or fuel that `PIT_sleep` used up.
  unfoldable pub enable_apic_timer : ℕ → ℕ → Kernel S → Option (Kernel S)
  unfolding start_count finish_count
  enable_apic_timer fuel frequency k =
      and_then (init_pit frequency k)
        λ r. and_then (pit_sleep fuel 10 (start_count r.1).1) λ slept. some (finish_count slept.1).1
