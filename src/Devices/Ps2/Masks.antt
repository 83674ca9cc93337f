-- ===== src/Devices/Ps2/Masks.antt =====
-- The lines of the 8259 controllers after `initKeyboard` of kernel/devices/ps2.c.
use maken_os.Base.{
  ℕ, ◌%◌, ◌^◌, ◌<◌, ◌≡◌, refl, ◌∙◌, ap, arith, Bool-cases, inl, inr, true, ltb, ◌==◌, if◌then◌else◌,
  bit_and, bit,
}
use maken_os.Sys.{Action, Machine, Kernel, akeyboard_handler, pure, ◌>>◌, inb, outb}
use maken_os.Interrupts.Isr.{register_interrupt_handler}
use maken_os.Devices.Pic.{data_port, own_line, disable_all_irqs}
use maken_os.Devices.Pic.Masks.{MaskPorts, masked, all_irqs_lem, clear_mask_irq_lem}
use maken_os.Devices.Apic.Masks.{KeepsMasks}
use maken_os.Devices.Ps2.{
  disable_ps2_port1, disable_ps2_port2, read_controller_output_buffer, write_configuration_byte,
  test_ps2_controller, read_data_port, write_data_port, write_command_register, read_ps2_ram,
  two_channel_of, configure, try_second_channel, start_port1, start_port2, reset_devices,
  flush_controller, init_keyboard, enable_ps2_port1, enable_ps2_port2, test_ps2_port1,
  test_ps2_port2, write_output_buffer,
}

-- A read of the keyboard controller's ports leaves the masks alone too.
module _ {S : Type 0} ⦃machine : Machine S⦄ {mask : ℕ → S → ℕ} (laws : MaskPorts machine mask)
    (keeps : KeepsMasks machine mask)
    (reads : (port j : ℕ) (s : S)
      → ltb port 0x65 ≡ true
      → ltb 0x5f port ≡ true
      → mask (data_port j) (machine.read_port8 port s).1 ≡ mask (data_port j) s) where
  abbrev Keeps : {A : Type 0} → Action (Kernel S) A → Type 0
  Keeps act = (j : ℕ) (k : Kernel S) → masked laws j (act k).1 ≡ masked laws j k

  port_keeps :
      (port v j : ℕ) (s : S)
      → ltb port 0x65 ≡ true
      → ltb 0x5f port ≡ true
      → mask (data_port j) (machine.write_port8 port v s).1 ≡ mask (data_port j) s
  port_keeps port v j s lo hi = keeps.port port (data_port j) v s (λ e. ground arith) (ground arith)

  read-Keeps : Keeps read_data_port
  unfolding read_data_port inb
  read-Keeps j k = ap (λ (x : ℕ). bit x (own_line j)) (reads 0x60 j k.bus refl refl)

  command-Keeps : (c n : ℕ) → Keeps (write_command_register c n)
  unfolding write_command_register write_data_port outb
  command-Keeps c n j k = elim (Bool-cases (n % 2 ^ 8 == 0)) [
    | inl zero_byte ↦ simp (zero_byte, λ (v : ℕ) (s : S). port_keeps 0x64 v j s refl refl)
    | inr more ↦ simp (
      more,
      λ (v : ℕ) (s : S). port_keeps 0x64 v j s refl refl,
      λ (v : ℕ) (s : S). port_keeps 0x60 v j s refl refl,
      read-Keeps j,
    )
  ]

  configure-Keeps : (c : ℕ) → Keeps (configure c)
  unfolding configure disable_ps2_port2 write_configuration_byte test_ps2_controller
  configure-Keeps c j k = elim (Bool-cases (two_channel_of c == 0)) [
    | inl one ↦ simp (one, command-Keeps, read-Keeps)
    | inr two ↦ simp (two, command-Keeps, read-Keeps)
  ]

  second-Keeps : (t : ℕ) → Keeps (try_second_channel t)
  unfolding try_second_channel enable_ps2_port2 disable_ps2_port2 read_ps2_ram
  second-Keeps t j k = elim (Bool-cases (t == 0)) [
    | inl one ↦ simp one
    | inr two ↦
        elim (Bool-cases (bit_and (read_ps2_ram 0 (enable_ps2_port2 k).1).0 0b00010000 == 0)) [
          | inl clear ↦ simp (two, clear, command-Keeps, read-Keeps, keeps.write_text)
          | inr set ↦ simp (two, set, command-Keeps, read-Keeps, keeps.write_text)
        ]
  ]

  port1-Keeps : Keeps start_port1
  unfolding start_port1 test_ps2_port1 enable_ps2_port1 read_ps2_ram write_configuration_byte
  port1-Keeps j k = elim (Bool-cases ((test_ps2_port1 k).0 == 0)) [
    | inl sound ↦ simp (sound, command-Keeps, read-Keeps, keeps.write_text, keeps.write_number)
    | inr broken ↦ simp (broken, command-Keeps, read-Keeps, keeps.write_text, keeps.write_number)
  ]

  port2-Keeps : Keeps start_port2
  unfolding start_port2 test_ps2_port2 enable_ps2_port2 read_ps2_ram write_configuration_byte
  port2-Keeps j k = elim (Bool-cases ((test_ps2_port2 k).0 == 0)) [
    | inl sound ↦ simp (sound, command-Keeps, read-Keeps, keeps.write_text, keeps.write_number)
    | inr broken ↦ simp (broken, command-Keeps, read-Keeps, keeps.write_text, keeps.write_number)
  ]

  second_port-Keeps : (t : ℕ) → Keeps (if t == 0 then pure tt else start_port2)
  second_port-Keeps t j k = elim (Bool-cases (t == 0)) [
    | inl one ↦ rw one refl
    | inr two ↦ rw two (port2-Keeps j k)
  ]

  -- The devices are reset before line 1 is opened.
  reset_unmasks :
      (t j : ℕ) (k : Kernel S)
      → j < 16
      → masked laws j (reset_devices t k).1 ≡ (if 1 == j then 0 else masked laws j k)
  unfolding reset_devices write_output_buffer
  reset_unmasks t j k h = elim (Bool-cases (t == 0)) [
    | inl one ↦ rw one (
        clear_mask_irq_lem laws 1 j _ (omega arith) h
        ∙ ap (λ (x : ℕ). if 1 == j then 0 else x) (simp command-Keeps))
    | inr two ↦ rw two (
        clear_mask_irq_lem laws 1 j _ (omega arith) h
        ∙ ap (λ (x : ℕ). if 1 == j then 0 else x) (simp (command-Keeps, read-Keeps)))
  ]

  -- What `initKeyboard` does before `disableAllIRQs`.
  abbrev quiet : Kernel S → Kernel S
  quiet k = ((do disable_ps2_port1; disable_ps2_port2; read_controller_output_buffer) k).1

  behind :
      (j : ℕ) (k : Kernel S)
      → masked laws j (flush_controller k).1 ≡ masked laws j (disable_all_irqs (quiet k)).1
  unfolding flush_controller read_ps2_ram
  behind j k = simp (command-Keeps, read-Keeps)

  -- The kernel before the test for a second channel is made again, and what the test gave.
  module _ (k : Kernel S) where
    abbrev flushed : ℕ × Kernel S
    flushed = flush_controller (register_interrupt_handler 33 akeyboard_handler k).1

    abbrev tried : ℕ × Kernel S
    tried = try_second_channel (two_channel_of flushed.0) (configure flushed.0 flushed.1).1

    abbrev started : Kernel S
    started = (start_port1 tried.1).1

    started-masked : (j : ℕ) → j < 16 → masked laws j started ≡ 1
    started-masked j h =
        port1-Keeps j tried.1
        ∙ second-Keeps (two_channel_of flushed.0) j (configure flushed.0 flushed.1).1
        ∙ configure-Keeps flushed.0 j flushed.1
        ∙ behind j _
        ∙ (all_irqs_lem laws j _ h).0

  -- On a machine whose 8259 controllers hold their masks behind their data ports, and where nothing
  -- else changes the masks, `initKeyboard`, whatever the controller answers, leaves the keyboard's line
  -- open and every other one masked.
  pub init_keyboard-masked :
      (j : ℕ) (k : Kernel S)
      → j < 16
      → masked laws j (init_keyboard k).1 ≡ (if 1 == j then 0 else 1)
  unfolding init_keyboard
  init_keyboard-masked j k h =
      reset_unmasks (tried k).0 j
        ((if (tried k).0 == 0 then pure tt else start_port2) (started k)).1 h
      ∙ ap (λ (x : ℕ). if 1 == j then 0 else x)
          (second_port-Keeps (tried k).0 j (started k) ∙ started-masked k j h)
