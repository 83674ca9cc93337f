-- ===== src/Devices/Pic/Device.antt =====
-- Two controllers of kernel/devices/pic.c that only keep their masks, for the tests.
use maken_os.Base.{ℕ, ◌%◌, refl, arith, [], ◌==◌, if◌then◌else◌, false}
use maken_os.Sys.{Machine, Kernel}
use maken_os.Devices.Pic.{pic1_data, pic2_data}
use maken_os.Devices.Pic.Masks.{MaskPorts}

abbrev pub Pics : Type 0
Pics = ℕ × ℕ

abbrev pub mask : ℕ → Pics → ℕ
mask port s = if port == pic1_data then s.0 % 256 else s.1 % 256

abbrev pub pics : Machine Pics
pics = record {
  read_port8 = λ p s. (mask p s, s);
  write_port8 =
      λ p v s. (tt, if p == pic1_data then (v, s.1) else if p == pic2_data then (s.0, v) else s);
  read_port16 = λ p s. (0, s);
  read_port32 = λ p s. (0, s);
  write_port32 = λ p v s. (tt, s);
  read_register = λ p s. (0, s);
  write_register = λ p v s. (tt, s);
  read_msr = λ r s. ((0, 0), s);
  write_msr = λ r lo hi s. (tt, s);
  write_text = λ t n s. (tt, s);
  write_bytes = λ cs s. (tt, s);
  write_number = λ n s. (tt, s);
  wait = λ s. (tt, s);
}

pub laws : MaskPorts pics mask
laws = record {
  fits = λ port s. ground arith;
  read = λ port s h. refl;
  write_self = λ port v s h small. ground arith;
  write_other = λ port other v s h h' ne. ground arith;
}

abbrev pub start : Kernel Pics
start = record {
  bus = (0xb8, 0x8f);
  interrupt_handlers = [];
  frequency = 0;
  shift = false;
  caps_lock = false;
  ctrl = false;
}
