-- ===== src/Devices/Apic/Laws.antt =====
-- The base address that `cpuSetAPICBase` of kernel/devices/apic.c writes.
use maken_os.Base.{
  ℕ, ◌+◌, ◌*◌, ◌/◌, ◌%◌, ◌^◌, ◌<◌, ◌≡◌, ◌∙◌, ap, arith, bit_and, bit_or, bit_and_mask,
  bit_and_shifted, bit_or_disjoint, ◌<<<◌, ◌∷◌,
}
use maken_os.Sys.{Kernel}
use maken_os.Sys.Trace.{Event, write_model, History, tracing}
use maken_os.Devices.Apic.{ia32_apic_base_msr, cpu_set_msr, cpu_set_apic_base}

-- `cpuSetAPICBase` writes a 32-bit base with the enable bit, but with the bits 12 to 15 of the
-- base cleared with those below.
cpu_set_apic_base-write :
    (answer : History → Event → ℕ) (k : Kernel History) (apic : ℕ)
    → apic < 2 ^ 32
    → (cpu_set_apic_base ⦃machine = tracing answer⦄ apic k).1.bus
      ≡ write_model ia32_apic_base_msr (apic / 2 ^ 16 * 2 ^ 16 + 0x800) 0 ∷ k.bus
unfolding cpu_set_apic_base cpu_set_msr
cpu_set_apic_base-write answer k apic small =
    let high : bit_and apic 0xfffff0000 ≡ (apic / 2 ^ 16) <<< 16 =
      bit_and_shifted 16 apic 0xfffff ∙ omega (arith, bit_and_mask 20 (apic / 2 ^ 16)) in
    let word : bit_or (bit_and apic 0xfffff0000) 0x800 % 2 ^ 32 ≡ apic / 2 ^ 16 * 2 ^ 16 + 0x800 =
      ap (λ (t : ℕ). bit_or t 0x800 % 2 ^ 32) high
      ∙ ap (λ (t : ℕ). t % 2 ^ 32) (bit_or_disjoint 16 (apic / 2 ^ 16) 0x800 (omega arith))
      ∙ omega arith in
    ap (λ (t : ℕ). write_model ia32_apic_base_msr t 0 ∷ k.bus) word
