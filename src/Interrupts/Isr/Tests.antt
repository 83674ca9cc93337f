-- ===== src/Interrupts/Isr/Tests.antt =====
-- The timer's handler on a table without handlers.
use maken_os.Base.{◌%◌, ◌≡◌, ◌≢◌, refl, some, none, get_elem?}
use maken_os.Sys.{Action, Kernel, Handler, pit_callback}
use maken_os.Sys.Trace.{wait, History, booted}
use maken_os.Interrupts.Isr.{InterruptFrame, register_interrupt_handler, irq_handler}
use maken_os.Interrupts.Isr.Laws.{irq_handler-register_interrupt_handler}
use maken_os.Base.{◌∷◌}

-- A handler leaves a mark in the history.
abbrev marks : Handler → InterruptFrame → Action (Kernel History) (Unit {0})
marks handler frame k = (tt, record k { bus = wait ∷ k.bus })

abbrev timer : InterruptFrame
timer = record { int_no = 32; err_code = 0 }

irq_handler-register_interrupt_handler_example :
    let k' = (register_interrupt_handler 32 pit_callback booted).1 in
    (32 ≡ 32 % 256 → irq_handler marks timer k' ≡ some (marks pit_callback timer k').1)
    × (32 ≢ 32 % 256 → get_elem? k'.interrupt_handlers 32 ≡ get_elem? booted.interrupt_handlers 32)
    × (32 ≢ 32 % 256
        → get_elem? booted.interrupt_handlers 32 ≡ some none
        → irq_handler marks timer k' ≡ none)
irq_handler-register_interrupt_handler_example =
    irq_handler-register_interrupt_handler marks 32 pit_callback timer booted refl
