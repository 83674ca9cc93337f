-- ===== src/Devices/Pic.antt =====
-- kernel/devices/pic.c: the two cascaded interrupt controllers.
pub mod Masks
pub mod Remap
pub mod Lines
pub mod Device
mod Tests
use maken_os.Base.{
  ℕ, zero, suc, ◌+◌, ◌-◌, ◌*◌, ◌%◌, ◌^◌, ltb, leb, if◌then◌else◌, bit_and, bit_or, ◌<<<◌, List, [],
  ◌∷◌, ◌++◌,
}
use maken_os.Sys.{Action, Machine, Kernel, pure, ◌>>=◌, ◌>>◌, inb, outb, io_wait}

abbrev pub pic_eoi : ℕ
pic_eoi = 0x20

abbrev pub pic1_command : ℕ
pic1_command = 0x20

abbrev pub pic1_data : ℕ
pic1_data = 0x21

abbrev pub pic2_command : ℕ
pic2_command = 0xa0

abbrev pub pic2_data : ℕ
pic2_data = 0xa1

-- The port of the controller of a line, and the line on its own controller.
abbrev pub data_port : ℕ → ℕ
data_port line = if ltb line 8 then pic1_data else pic2_data

abbrev pub own_line : ℕ → ℕ
own_line line = if ltb line 8 then line else line - 8

module _ {S : Type 0} ⦃machine : Machine S⦄ where
  -- `(inb(PIC2_COMMAND) << 8) | inb(PIC1_COMMAND)`; C leaves the order of the two reads open, and
  -- here the left one comes first.
  pic_get_irq_reg : ℕ → Action (Kernel S) ℕ
  pic_get_irq_reg ocw3 = do
    outb pic1_command ocw3
    outb pic2_command ocw3
    high ← inb pic2_command
    low ← inb pic1_command
    pure (bit_or (high <<< 8) low % 2 ^ 16)

  unfoldable pub pic_get_irr : Action (Kernel S) ℕ
  unfolding pic_get_irq_reg
  pic_get_irr = pic_get_irq_reg 0x0a

  unfoldable pub pic_get_isr : Action (Kernel S) ℕ
  unfolding pic_get_irq_reg
  pic_get_isr = pic_get_irq_reg 0x0b

  unfoldable pub send_eoi_pic : ℕ → Action (Kernel S) (Unit {0})
  send_eoi_pic irq = do
    if leb 8 irq then outb pic2_command pic_eoi else pure tt
    outb pic1_command pic_eoi

  unfoldable pub set_mask_irq : ℕ → Action (Kernel S) (Unit {0})
  set_mask_irq line = do
    old ← inb (data_port line)
    outb (data_port line) (bit_or old (2 ^ own_line line) % 2 ^ 8)

  -- `~` on an `int`.
  unfoldable pub clear_mask_irq : ℕ → Action (Kernel S) (Unit {0})
  clear_mask_irq line = do
    old ← inb (data_port line)
    outb (data_port line) (bit_and old (2 ^ 32 - 1 - 2 ^ own_line line) % 2 ^ 8)

  -- The loops over the lines, `left` of them from line `i` on.
  disable_from : ℕ → ℕ → Action (Kernel S) (Unit {0})
  disable_from zero i = pure tt
  disable_from (suc left) i = do set_mask_irq i; disable_from left (i + 1)

  enable_from : ℕ → ℕ → Action (Kernel S) (Unit {0})
  enable_from zero i = pure tt
  enable_from (suc left) i = do clear_mask_irq i; enable_from left (i + 1)

  unfoldable pub disable_all_irqs : Action (Kernel S) (Unit {0})
  unfolding disable_from
  disable_all_irqs = disable_from 16 0

  unfoldable pub enable_all_irqs : Action (Kernel S) (Unit {0})
  unfolding enable_from
  enable_all_irqs = enable_from 16 0

  unfoldable pub remap_pic : ℕ → ℕ → Action (Kernel S) (Unit {0})
  remap_pic offset1 offset2 = do
    a1 ← inb pic1_data
    a2 ← inb pic2_data
    outb pic1_command 0x11
    io_wait
    outb pic2_command 0x11
    io_wait
    outb pic1_data offset1
    io_wait
    outb pic2_data offset2
    io_wait
    outb pic1_data 4
    io_wait
    outb pic2_data 2
    io_wait
    outb pic1_data 0x01
    io_wait
    outb pic2_data 0x01
    io_wait
    outb pic1_data a1
    outb pic2_data a2
