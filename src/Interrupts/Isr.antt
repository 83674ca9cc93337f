-- ===== src/Interrupts/Isr.antt =====
-- kernel/interrupts/isr.c: the table of interrupt handlers and the exception handler.
pub mod Laws
mod Tests
use maken_os.Base.{
  ℕ, ◌%◌, ◌^◌, Bool, true, false, Option, none, some, ◌==◌, if◌then◌else◌, bit_and, get_elem?, set,
}
use maken_os.Sys.{Action, Machine, Kernel, Handler, pure, ◌>>=◌, ◌>>◌, term_write, print_number}

-- The members of `InterruptFrame` that the C code reads.
pub record InterruptFrame : Type 0 where
  pub int_no : ℕ
  pub err_code : ℕ

module _ {S : Type 0} where
  -- `interrupt` is a `uint8_t`.
  unfoldable pub register_interrupt_handler : ℕ → Handler → Action (Kernel S) (Unit {0})
  register_interrupt_handler interrupt handler k = (
    tt,
    record k { interrupt_handlers = set k.interrupt_handlers (interrupt % 256) (some handler) },
  )

  -- The test compares the address of the array's element with NULL, so it always passes: a slot
  -- with no handler is called, `none`, as is what stands behind the array. `run` is what the
  -- handlers do.
  unfoldable pub irq_handler :
      (Handler → InterruptFrame → Action (Kernel S) (Unit {0}))
      → InterruptFrame
      → Kernel S
      → Option (Kernel S)
  irq_handler run frame k = call_slot (get_elem? k.interrupt_handlers frame.int_no)
    where
      call_slot : Option (Option Handler) → Option (Kernel S)
      call_slot none = none
      call_slot (some none) = none
      call_slot (some (some handler)) = some (run handler frame k).1

-- `get_cr2` reads the control register. The result tells whether the handler returns; after a
-- protection violation it halts for ever.
unfoldable pub exception_handler :
    {S : Type 0} ⦃machine : Machine S⦄
    → Action (Kernel S) ℕ
    → InterruptFrame
    → Action (Kernel S) Bool
exception_handler get_cr2 frame = do
  print_number frame.int_no
  print_number frame.err_code
  if frame.int_no == 14
      then (if bit_and frame.err_code 1 == 0
          then (do cr2 ← get_cr2; print_number cr2; term_write "dead :(" 7; pure true)
          else (do term_write "Page protection violation\n" 26; pure false))
      else pure true
