-- ===== src/Devices/Ioapic.antt =====
-- kernel/devices/ioapic.c and ps2_keyboard.c: the I/O interrupt controller, and the keyboard handler
-- with its modifier keys.
mod Scancodes
unfoldable pub use Scancodes.{set1_scancodes, shift_set1_scancodes}
pub mod Keyboard
mod Tests
use Prim.Native.String.{String, len}
use maken_os.Base.{
  ℕ, zero, suc, ◌+◌, ◌*◌, ◌%◌, ◌^◌, Bool, true, false, not, ◌||◌, Option, none, some, ltb, ◌==◌,
  if◌then◌else◌, bit_and, List, get_elem?,
}
use maken_os.Sys.{
  Action, Machine, Kernel, keyboard_handler, pure, ◌>>=◌, ◌>>◌, read32, write32, term_write,
  print_number,
}
use maken_os.Interrupts.Isr.{register_interrupt_handler}
use maken_os.Devices.Apic.{write_apic_register}
use maken_os.Devices.Ps2.{read_data_port}
use maken_os.Devices.Serial.{init_serial}

-- The modifier keys, and what one scan code writes: the parts are written in order.
pub record Modifiers : Type 0 where
  pub shift : Bool
  pub caps_lock : Bool
  pub ctrl : Bool

pub data Shown : Type 0 where
  nothing : Shown
  key : String → Shown
  out_of_table : Shown

abbrev pub xor : Bool → Bool → Bool
xor true b = not b
xor false b = b

-- The table that a key is looked up in; behind its end there is no key.
unfoldable pub shown : Modifiers → ℕ → Shown
shown s input =
    if xor s.shift s.caps_lock
    then elim (get_elem? shift_set1_scancodes input) [ none ↦ out_of_table | some text ↦ key text ]
    else elim (get_elem? set1_scancodes input) [ none ↦ out_of_table | some text ↦ key text ]

-- The branches of `keyboardHandler`: the modifiers, whether `^` is written, and the key.
unfoldable pub press : Modifiers → ℕ → Modifiers × Bool × Shown
press s input =
    if input == 0x2a || input == 0x36
    then (record s { shift = true }, false, nothing)
    else if input == 0x3a
    then (record s { caps_lock = not s.caps_lock }, false, nothing)
    else if input == 0x1d
    then (record s { ctrl = true }, false, nothing)
    else if ltb input 0x58
    then (s, s.ctrl, shown s input)
    else if input == 0xaa || input == 0xb6
    then (record s { shift = false }, false, nothing)
    else if input == 0x9d
    then (record s { ctrl = false }, false, nothing)
    else (s, false, nothing)

abbrev modifiers : {S : Type 0} → Kernel S → Modifiers
modifiers k = record { shift = k.shift; caps_lock = k.caps_lock; ctrl = k.ctrl }

abbrev set_modifiers : {S : Type 0} → Modifiers → Action (Kernel S) (Unit {0})
set_modifiers s k = (tt, record k { shift = s.shift; caps_lock = s.caps_lock; ctrl = s.ctrl })

module _ {S : Type 0} ⦃machine : Machine S⦄ where
  -- `keyboardHandler`; `none` is a read behind a table.
  unfoldable pub on_key : Kernel S → Option (Kernel S)
  on_key k =
      let read = read_data_port k in
      let (s, caret, shown_key) = press (modifiers read.1) read.0 in
      let after = ((do set_modifiers s; if caret then term_write "^" 1 else pure tt) read.1).1 in
      elim shown_key [
        | nothing ↦ some (write_apic_register 0xb0 0 after).1
        | key text ↦ some ((do term_write text (len text); write_apic_register 0xb0 0) after).1
        | out_of_table ↦ none
      ]

  unfoldable pub read_ioapic : ℕ → ℕ → Action (Kernel S) ℕ
  read_ioapic ioapicaddr reg = do write32 ioapicaddr (bit_and reg 0xff); read32 (ioapicaddr + 16)

  unfoldable pub write_ioapic : ℕ → ℕ → ℕ → Action (Kernel S) (Unit {0})
  write_ioapic ioapicaddr reg value = do
    write32 ioapicaddr (bit_and reg 0xff)
    write32 (ioapicaddr + 16) (value % 2 ^ 32)

  read_entries : ℕ → ℕ → ℕ → Action (Kernel S) (Unit {0})
  read_entries zero i ioapicaddr = pure tt
  read_entries (suc left) i ioapicaddr = do
    term_write "IRQ " 4
    print_number i
    redirection_entry_1 ← read_ioapic ioapicaddr (0x10 + i * 2)
    redirection_entry_2 ← read_ioapic ioapicaddr (0x11 + i * 2)
    print_number redirection_entry_1
    print_number redirection_entry_2
    read_entries left (i + 1) ioapicaddr

  unfoldable pub read_ioredtbls : ℕ → Action (Kernel S) (Unit {0})
  unfolding read_entries
  read_ioredtbls ioapicaddr = do
    ioapic_id ← read_ioapic ioapicaddr 0x0
    ioapic_ver ← read_ioapic ioapicaddr 0x1
    print_number ioapic_id
    print_number ioapic_ver
    read_entries 8 0 ioapicaddr

  unfoldable pub enable_keyboard : ℕ → Action (Kernel S) (Unit {0})
  enable_keyboard ioapicaddr = do
    write_ioapic ioapicaddr 0x12 0x21
    register_interrupt_handler 0x21 keyboard_handler

  unfoldable pub enable_serial_com1 : ℕ → Action (Kernel S) (Unit {0})
  enable_serial_com1 ioapicaddr = do write_ioapic ioapicaddr 0x18 0x24; init_serial; pure tt
