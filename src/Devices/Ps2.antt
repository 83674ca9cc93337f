-- ===== src/Devices/Ps2.antt =====
-- kernel/devices/ps2.c: the PS/2 controller. The two polling functions are empty in the source.
pub mod Laws
pub mod Masks
mod Tests
use maken_os.Base.{ℕ, ◌+◌, ◌-◌, ◌%◌, ◌^◌, ◌==◌, if◌then◌else◌, bit_and, bit_or}
use maken_os.Sys.{
  Action, Machine, Kernel, akeyboard_handler, pure, ◌>>=◌, ◌>>◌, inb, outb, term_write,
  print_number,
}
use maken_os.Interrupts.Isr.{InterruptFrame, register_interrupt_handler}
use maken_os.Devices.Pic.{send_eoi_pic, disable_all_irqs, clear_mask_irq}

abbrev pub ps2_data_port : ℕ
ps2_data_port = 0x60

abbrev pub ps2_status_reg : ℕ
ps2_status_reg = 0x64

abbrev pub ps2_command_reg : ℕ
ps2_command_reg = 0x64

-- `~(configuration_byte & 0b00010000)` cut to eight bits.
unfoldable pub two_channel_of : ℕ → ℕ
two_channel_of configuration_byte = (2 ^ 32 - 1 - bit_and configuration_byte 0b00010000) % 2 ^ 8

module _ {S : Type 0} ⦃machine : Machine S⦄ where
  unfoldable pub read_status_register : Action (Kernel S) ℕ
  read_status_register = inb ps2_status_reg

  unfoldable pub read_data_port : Action (Kernel S) ℕ
  read_data_port = inb ps2_data_port

  unfoldable pub write_data_port : ℕ → Action (Kernel S) (Unit {0})
  write_data_port byte = outb ps2_data_port byte

  -- The arguments are `uint8_t`.
  unfoldable pub write_command_register : ℕ → ℕ → Action (Kernel S) (Unit {0})
  write_command_register command_byte next_byte = do
    outb ps2_command_reg command_byte
    if next_byte % 2 ^ 8 == 0 then pure tt else (do read_data_port; write_data_port next_byte)

  unfoldable pub test_ps2_controller : Action (Kernel S) ℕ
  test_ps2_controller = do write_command_register 0xaa 0; read_data_port

  unfoldable pub test_ps2_port1 : Action (Kernel S) ℕ
  test_ps2_port1 = do write_command_register 0xab 0; read_data_port

  unfoldable pub test_ps2_port2 : Action (Kernel S) ℕ
  test_ps2_port2 = do write_command_register 0xa9 0; read_data_port

  unfoldable pub enable_ps2_port1 : Action (Kernel S) (Unit {0})
  enable_ps2_port1 = write_command_register 0xae 0

  unfoldable pub disable_ps2_port1 : Action (Kernel S) (Unit {0})
  disable_ps2_port1 = write_command_register 0xad 0

  unfoldable pub enable_ps2_port2 : Action (Kernel S) (Unit {0})
  enable_ps2_port2 = write_command_register 0xa8 0

  unfoldable pub disable_ps2_port2 : Action (Kernel S) (Unit {0})
  disable_ps2_port2 = write_command_register 0xa7 0

  unfoldable pub read_ps2_ram : ℕ → Action (Kernel S) ℕ
  read_ps2_ram byte = do write_command_register (0x20 + byte) 0; read_data_port

  unfoldable pub write_ps2_ram : ℕ → Action (Kernel S) (Unit {0})
  write_ps2_ram byte = write_command_register (0x60 + byte) byte

  unfoldable pub write_configuration_byte : ℕ → Action (Kernel S) (Unit {0})
  write_configuration_byte byte = write_command_register 0x60 byte

  unfoldable pub copy_to_status : ℕ → Action (Kernel S) (Unit {0})
  copy_to_status high = write_command_register (0xc1 + high) 0

  unfoldable pub read_controller_output_buffer : Action (Kernel S) ℕ
  read_controller_output_buffer = do write_command_register 0xd0 0; read_data_port

  unfoldable pub write_output_buffer : ℕ → ℕ → Action (Kernel S) (Unit {0})
  write_output_buffer byte port = write_command_register (0xd1 + port) byte

  unfoldable pub pulse_output_lines : ℕ → Action (Kernel S) (Unit {0})
  pulse_output_lines lines = write_command_register (0xf0 + lines) 0

  -- `akeyboardHandler`
  unfoldable pub on_keyboard : InterruptFrame → Action (Kernel S) (Unit {0})
  on_keyboard frame = do
    term_write "Handling interrupt\n" 20
    scan_code ← read_data_port
    print_number scan_code
    if frame.int_no == 12 then send_eoi_pic 12 else pure tt

  -- The stages of `initKeyboard`, in order: the last three get `two_channel`.
  flush_controller : Action (Kernel S) ℕ
  flush_controller = do
    disable_ps2_port1
    disable_ps2_port2
    read_controller_output_buffer
    disable_all_irqs
    read_ps2_ram 0

  configure : ℕ → Action (Kernel S) ℕ
  configure configuration_byte = do
    if two_channel_of configuration_byte == 0 then pure tt else disable_ps2_port2
    write_configuration_byte (bit_and configuration_byte 0b11011100)
    test_ps2_controller

  -- What `two_channel` is after the second port was tried.
  try_second_channel : ℕ → Action (Kernel S) ℕ
  try_second_channel two_channel = if two_channel == 0 then pure two_channel else (do
    enable_ps2_port2
    configuration_byte ← read_ps2_ram 0
    term_write "is dual channel!\n" 17
    if bit_and configuration_byte 0b00010000 == 0
        then (do disable_ps2_port2; pure two_channel)
        else pure 0)

  start_port1 : Action (Kernel S) (Unit {0})
  start_port1 = do
    port1_status ← test_ps2_port1
    term_write "Port 1 Status:\n" 16
    print_number port1_status
    if port1_status == 0
        then (do
          enable_ps2_port1
          configuration_byte ← read_ps2_ram 0
          write_configuration_byte (bit_or configuration_byte 1))
        else pure tt
    configuration_byte ← read_ps2_ram 0
    term_write "Configuration byte from 1\n" 26
    print_number configuration_byte

  start_port2 : Action (Kernel S) (Unit {0})
  start_port2 = do
    port2_status ← test_ps2_port2
    term_write "Port 2 Status:\n" 15
    print_number port2_status
    if port2_status == 0
        then (do
          enable_ps2_port2
          configuration_byte ← read_ps2_ram 0
          write_configuration_byte (bit_or configuration_byte 2)
          configuration_byte ← read_ps2_ram 0
          term_write "Configuration byte from 2\n" 26
          print_number configuration_byte)
        else pure tt

  reset_devices : ℕ → Action (Kernel S) (Unit {0})
  reset_devices two_channel = do
    write_output_buffer 0xff 0
    write_output_buffer 0xff 1
    if two_channel == 0 then pure tt else (do write_output_buffer 0xff 2; read_data_port; pure tt)
    clear_mask_irq 1

  unfoldable pub init_keyboard : Action (Kernel S) (Unit {0})
  unfolding flush_controller configure try_second_channel start_port1 start_port2 reset_devices
  init_keyboard = do
    register_interrupt_handler 33 akeyboard_handler
    configuration_byte ← flush_controller
    configure configuration_byte
    two_channel ← try_second_channel (two_channel_of configuration_byte)
    start_port1
    if two_channel == 0 then pure tt else start_port2
    reset_devices two_channel
