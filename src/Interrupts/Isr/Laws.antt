-- ===== src/Interrupts/Isr/Laws.antt =====
-- Registering a handler and calling it: kernel/interrupts/isr.c.
use maken_os.Base.{
  ℕ, ◌%◌, ◌≡◌, ◌≢◌, refl, ◌∙◌, sym, ap, arith, none, some, length, get_elem?, set,
  get_elem?-set_self, get_elem?-set_ne,
}
use maken_os.Sys.{Action, Kernel, Handler}
use maken_os.Interrupts.Isr.{InterruptFrame, register_interrupt_handler, irq_handler}

module _ {S : Type 0} (run : Handler → InterruptFrame → Action (Kernel S) (Unit {0})) where
  -- With a table of 256 slots, an interrupt whose number was registered, modulo 256, runs the
  -- handler that was registered last; the slot of every other interrupt is as it was, and one whose
  -- slot holds no handler calls NULL.
  pub irq_handler-register_interrupt_handler :
      (interrupt : ℕ) (handler : Handler) (frame : InterruptFrame) (k : Kernel S)
      → length k.interrupt_handlers ≡ 256
      → let k' = (register_interrupt_handler interrupt handler k).1 in
        (frame.int_no ≡ interrupt % 256 → irq_handler run frame k' ≡ some (run handler frame k').1)
        × (frame.int_no ≢ interrupt % 256
            → get_elem? k'.interrupt_handlers frame.int_no
              ≡ get_elem? k.interrupt_handlers frame.int_no)
        × (frame.int_no ≢ interrupt % 256
            → get_elem? k.interrupt_handlers frame.int_no ≡ some none
            → irq_handler run frame k' ≡ none)
  unfolding register_interrupt_handler irq_handler
  irq_handler-register_interrupt_handler interrupt handler frame k size =
      (λ same. rw (found same) refl, kept, λ ne empty. rw (kept ne ∙ empty) refl)
    where
      kept :
          frame.int_no ≢ interrupt % 256
          → get_elem? (set k.interrupt_handlers (interrupt % 256) (some handler)) frame.int_no
            ≡ get_elem? k.interrupt_handlers frame.int_no
      kept ne =
          get_elem?-set_ne k.interrupt_handlers (interrupt % 256) frame.int_no (some handler)
            (λ e. ne (sym e))

      found :
          frame.int_no ≡ interrupt % 256
          → get_elem? (set k.interrupt_handlers (interrupt % 256) (some handler)) frame.int_no
            ≡ some (some handler)
      found same =
          ap (get_elem? (set k.interrupt_handlers (interrupt % 256) (some handler))) same
          ∙ get_elem?-set_self k.interrupt_handlers (interrupt % 256) (some handler) (omega arith)
