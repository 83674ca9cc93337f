-- ===== src/Devices/Apic/Device.antt =====
-- The two controllers of the tests, where only their data ports reach the masks: for the runs of
-- kernel/devices/apic.c and kernel/devices/ps2.c.
use native.Mathlib.Decide.{ℕ_discrete}
use maken_os.Base.{inl, inr, refl, arith}
use maken_os.Devices.Pic.{pic1_data, pic2_data}
use maken_os.Devices.Pic.Device.{mask, pics}
use maken_os.Devices.Apic.Masks.{KeepsMasks}

pub keeps : KeepsMasks pics mask
keeps = record {
  port = λ port other v s other_port data_port. elim (ℕ_discrete port pic1_data) [
    | yes e ↦ absurd (other_port (inl e))
    | no ne1 ↦ elim (ℕ_discrete port pic2_data) [
      | yes e ↦ absurd (other_port (inr e))
      | no ne2 ↦ ground arith
    ]
  ];
  read_register = λ a p s. refl;
  write_register = λ a v p s. refl;
  read_msr = λ r p s. refl;
  write_msr = λ r lo hi p s. refl;
  write_text = λ t n p s. refl;
  write_number = λ n p s. refl;
}
