-- ===== src/Interrupts/Gdt/Tests.antt =====
-- Descriptors of kernel/gdt.c.
use maken_os.Base.{◌+◌, arith, Memory}
use maken_os.Interrupts.Gdt.{store_descriptor, set_system_entry}
use maken_os.Interrupts.Gdt.Laws.{IsReversed, set_system_entry-IsReversed}

abbrev blank : Memory
blank a = 0

set_system_entry-IsReversed_example :
    let e = set_system_entry 0x12345678 0 0x89 0x67 in
    IsReversed 0x12345678 0 0x89 0x67 0x100
      (store_descriptor (0x100 + 8) e.0 (store_descriptor 0x100 e.1 blank))
set_system_entry-IsReversed_example =
    set_system_entry-IsReversed 0x12345678 0 0x89 0x67 0x100 blank (omega arith) (omega arith)
      (omega arith) (omega arith)
