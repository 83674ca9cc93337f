-- ===== src/Devices/Serial.antt =====
-- kernel/devices/serial.c: the first serial port. A loop that polls takes fuel: `none` means that
-- it ran out.
pub mod Laws
pub mod Receive
mod Tests
use maken_os.Base.{
  ℕ, zero, suc, ◌+◌, ◌-◌, ◌%◌, ◌^◌, Bool, true, false, Option, none, some, ltb, ◌==◌, ◌!=◌,
  if◌then◌else◌, bit_and, List, [], ◌∷◌, Memory, store,
}
use maken_os.Sys.{
  Action, and_then, Machine, Kernel, serial_interrupt_handler, pure, ◌>>=◌, ◌>>◌, inb, outb,
  term_write, term_bytes, print_number,
}
use maken_os.Interrupts.Isr.{register_interrupt_handler}

abbrev pub com1 : ℕ
com1 = 0x3f8

module _ {S : Type 0} ⦃machine : Machine S⦄ where
  -- True if the chip is faulty.
  unfoldable pub init_serial : Action (Kernel S) Bool
  init_serial = do
    register_interrupt_handler 0x24 serial_interrupt_handler
    outb (com1 + 1) 0x00
    outb (com1 + 3) 0x80
    outb (com1 + 0) 0x03
    outb (com1 + 1) 0x00
    outb (com1 + 3) 0x03
    outb (com1 + 2) 0xc7
    outb (com1 + 4) 0x0b
    outb (com1 + 4) 0x1e
    outb (com1 + 0) 0xae
    echo ← inb (com1 + 0)
    if echo != 0xae
        then (do term_write "bokre" 5; pure true)
        else (do outb (com1 + 4) 0x0f; pure false)

  unfoldable pub is_serial_received : Action (Kernel S) Bool
  is_serial_received = do status ← inb (com1 + 5); pure (bit_and status 1 != 0)

  -- `bool`: any set bit is true.
  unfoldable pub is_transmit_empty : Action (Kernel S) Bool
  is_transmit_empty = do status ← inb (com1 + 5); pure (bit_and status 0x20 != 0)

  unfoldable pub read_serial : ℕ → Kernel S → Option (ℕ × Kernel S)
  read_serial zero k = none
  read_serial (suc fuel) k =
      let status = is_serial_received k in
      let rest = read_serial fuel status.1 in if status.0 then some (inb com1 status.1) else rest

  -- `serialInterruptHandler`, with the interrupt number of the frame; `unset` is the second element of
  -- its array, which is written without having been set.
  unfoldable pub on_serial : ℕ → ℕ → ℕ → Kernel S → Option (Kernel S)
  on_serial fuel int_no unset k =
      and_then (read_serial fuel (print_number int_no k).1)
        (λ r. some (term_bytes (r.0 ∷ unset ∷ []) r.1).1)

  unfoldable pub write_serial : ℕ → ℕ → Kernel S → Option (Kernel S)
  write_serial zero a k = none
  write_serial (suc fuel) a k =
      let status = is_transmit_empty k in
      let rest = write_serial fuel a status.1 in
      if status.0 then some (outb com1 a status.1).1 else rest

  -- The loop of `readSerialString` from index `i` on, with `left` rounds as fuel: the index at its
  -- end, the buffer and the kernel. A character that is not 0 advances the index twice.
  read_string_from : ℕ → ℕ → ℕ → ℕ → ℕ → Memory → Kernel S → Option (ℕ × Memory × Kernel S)
  read_string_from zero fuel i buffer len m k = none
  read_string_from (suc left) fuel i buffer len m k =
      let next = and_then (read_serial fuel k) λ r.
        read_string_from left fuel (if r.0 == 0 then i + 1 else i + 2) buffer len
          (if r.0 == 0 then m else store m (buffer + i) r.0) r.1 in
      if ltb i len then next else some (i, m, k)

  unfoldable pub read_serial_string : ℕ → ℕ → ℕ → Memory → Kernel S → Option (Memory × Kernel S)
  unfolding read_string_from
  read_serial_string fuel buffer len m k =
      and_then (read_string_from (len + 1) fuel 0 buffer len m k)
        (λ r. some (store r.1 (buffer + r.0) 0, r.2))

  -- The loop of `writeSerialString` from index `i` on, with `left` rounds as fuel.
  write_string_from : ℕ → ℕ → ℕ → ℕ → Memory → Kernel S → Option (Kernel S)
  write_string_from zero fuel i str m k = none
  write_string_from (suc left) fuel i str m k =
      let next =
        and_then (write_serial fuel (m (str + i)) k)
          λ k'. write_string_from left fuel (i + 1) str m k' in
      if m (str + i) != 0 then next else some k

  unfoldable pub write_serial_string : ℕ → ℕ → ℕ → Memory → Kernel S → Option (Kernel S)
  unfolding write_string_from
  write_serial_string left fuel str m k = write_string_from left fuel 0 str m k
