-- ===== src/Sys.antt =====
-- kernel/sys/io.c and the machine under the drivers: ports, memory-mapped and model-specific
-- registers, the terminal of the boot loader and `hlt`. Those are instructions and firmware and no
-- code of the repository, so a `Machine` gives them, over a state `S` of any kind; `write_number`,
-- the printing of a number on the terminal, which kernel/lib/print.c does, is one of its
-- operations too. The drivers run on `Kernel S`, which adds the variables that they share.
pub mod Trace
use Prim.Native.String.{String}
use maken_os.Base.{ℕ, ◌%◌, ◌^◌, Bool, List, Option, none, some}

-- What changes a state and returns a value.
abbrev pub Action : Type 0 → Type 0 → Type 0
Action S A = S → A × S

abbrev pub pure : {S A : Type 0} → A → Action S A
pure a s = (a, s)

infixl 5 ◌>>=◌ ◌>>◌
abbrev pub ◌>>=◌ : {S A B : Type 0} → Action S A → (A → Action S B) → Action S B
◌>>=◌ m f s = let r = m s in f r.0 r.1

abbrev pub ◌>>◌ : {S A B : Type 0} → Action S A → Action S B → Action S B
◌>>◌ m n s = let r = m s in n r.1

-- The next step of something that can fail or run out of fuel.
abbrev pub and_then : {A B : Type 0} → Option A → (A → Option B) → Option B
and_then none f = none
and_then (some a) f = f a

pub record Machine (S : Type 0) : Type 0 where
  pub read_port8 : ℕ → Action S ℕ
  pub write_port8 : ℕ → ℕ → Action S (Unit {0})
  pub read_port16 : ℕ → Action S ℕ
  pub read_port32 : ℕ → Action S ℕ
  pub write_port32 : ℕ → ℕ → Action S (Unit {0})
  pub read_register : ℕ → Action S ℕ
  pub write_register : ℕ → ℕ → Action S (Unit {0})
  pub read_msr : ℕ → Action S (ℕ × ℕ)
  pub write_msr : ℕ → ℕ → ℕ → Action S (Unit {0})
  pub write_text : String → ℕ → Action S (Unit {0})
  pub write_bytes : List ℕ → Action S (Unit {0})
  pub write_number : ℕ → Action S (Unit {0})
  pub wait : Action S (Unit {0})

-- The functions that a driver registers for an interrupt.
pub data Handler : Type 0 where
  keyboard_handler akeyboard_handler serial_interrupt_handler : Handler
  pci_interrupt_handler pit_callback apic_timer_callback : Handler

-- `interrupt_handlers` of isr.c, `frequency` of pit.c, and the modifier keys of ioapic.c.
pub record Kernel (S : Type 0) : Type 0 where
  pub bus : S
  pub interrupt_handlers : List (Option Handler)
  pub frequency : ℕ
  pub shift : Bool
  pub caps_lock : Bool
  pub ctrl : Bool

module _ {S : Type 0} where
  abbrev pub on_bus : {A : Type 0} → Action S A → Action (Kernel S) A
  on_bus m k = let r = m k.bus in (r.0, record k { bus = r.1 })

module _ {S : Type 0} ⦃machine : Machine S⦄ where
  -- The operands are `uint16_t` and `uint8_t`.
  unfoldable pub inb : ℕ → Action (Kernel S) ℕ
  inb port = on_bus (machine.read_port8 (port % 2 ^ 16))

  unfoldable pub inw : ℕ → Action (Kernel S) ℕ
  inw port = on_bus (machine.read_port16 (port % 2 ^ 16))

  unfoldable pub in_long : ℕ → Action (Kernel S) ℕ
  in_long port = on_bus (machine.read_port32 (port % 2 ^ 16))

  unfoldable pub outb : ℕ → ℕ → Action (Kernel S) (Unit {0})
  outb port val = on_bus (machine.write_port8 (port % 2 ^ 16) (val % 2 ^ 8))

  unfoldable pub out_long : ℕ → ℕ → Action (Kernel S) (Unit {0})
  out_long port val = on_bus (machine.write_port32 (port % 2 ^ 16) (val % 2 ^ 32))

  unfoldable pub io_wait : Action (Kernel S) (Unit {0})
  unfolding outb
  io_wait = outb 0x80 0

  abbrev pub read32 : ℕ → Action (Kernel S) ℕ
  read32 address = on_bus (machine.read_register address)

  abbrev pub write32 : ℕ → ℕ → Action (Kernel S) (Unit {0})
  write32 address value = on_bus (machine.write_register address value)

  abbrev pub term_write : String → ℕ → Action (Kernel S) (Unit {0})
  term_write string length = on_bus (machine.write_text string length)

  -- `term_write` of bytes of memory.
  abbrev pub term_bytes : List ℕ → Action (Kernel S) (Unit {0})
  term_bytes cs = on_bus (machine.write_bytes cs)

  abbrev pub print_number : ℕ → Action (Kernel S) (Unit {0})
  print_number num = on_bus (machine.write_number num)

  abbrev pub halt : Action (Kernel S) (Unit {0})
  halt = on_bus machine.wait
