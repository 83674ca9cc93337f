-- ===== src/Devices/Pit.antt =====
-- kernel/devices/pit.c: the interval timer.
pub mod Laws
use maken_os.Base.{
  ℕ, zero, suc, ◌+◌, ◌*◌, ◌/◌, ◌%◌, ◌^◌, Option, none, some, ltb, ◌==◌, if◌then◌else◌, bit_and,
  ◌>>>◌,
}
use maken_os.Sys.{Action, Machine, Kernel, pit_callback, ◌>>=◌, ◌>>◌, outb, term_write, halt}
use maken_os.Interrupts.Isr.{register_interrupt_handler}
use maken_os.Devices.Pic.{clear_mask_irq, send_eoi_pic}

module _ {S : Type 0} ⦃machine : Machine S⦄ where
  -- `PIT_callback`
  unfoldable pub on_tick : Action (Kernel S) (Unit {0})
  on_tick = send_eoi_pic 0

  abbrev pub set_frequency : ℕ → Action (Kernel S) (Unit {0})
  set_frequency new_frequency k = (tt, record k { frequency = new_frequency })

  -- The two bytes of the divisor go to port 0x40, the low one first.
  unfoldable pub send_divisor : ℕ → Action (Kernel S) (Unit {0})
  send_divisor divisor = do
    outb 0x43 0x36
    let l = bit_and divisor 0xff % 2 ^ 8
    let h = bit_and (divisor >>> 8) 0xff % 2 ^ 8
    outb 0x40 l
    outb 0x40 h

  -- `none` is the division by zero.
  unfoldable pub init_pit : ℕ → Kernel S → Option (Unit {0} × Kernel S)
  init_pit new_frequency k =
      if new_frequency == 0
      then none
      else some (
          (do
            term_write "Initializing timer\n" 19
            register_interrupt_handler 32 pit_callback
            set_frequency new_frequency
            send_divisor (1193180 / new_frequency)
            term_write "Timer initialized\n" 18
            clear_mask_irq 0)
            k)

  -- `ticks` is a `uint32_t`, the bound a `uint64_t`. `none` means that the fuel ran out.
  sleep_from : ℕ → ℕ → ℕ → Kernel S → Option (ℕ × Kernel S)
  sleep_from zero ticks bound k = none
  sleep_from (suc fuel) ticks bound k =
      let rest = sleep_from fuel ((ticks + 1) % 2 ^ 32) bound (halt k).1 in
      if ltb ticks bound then rest else some (ticks, k)

  unfoldable pub pit_sleep : ℕ → ℕ → Kernel S → Option (ℕ × Kernel S)
  unfolding sleep_from
  pit_sleep fuel milliseconds k = sleep_from fuel 0 (k.frequency / 1000 * milliseconds % 2 ^ 64) k
