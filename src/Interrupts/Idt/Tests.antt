-- ===== src/Interrupts/Idt/Tests.antt =====
-- Gates of kernel/interrupts/idt.c.
use maken_os.Base.{ℕ, ◌+◌, ◌*◌, refl, arith, List, ◌%◌, ◌^◌, ◌<◌, replicate, get_elem?}
use maken_os.Interrupts.Idt.{IdtEntry, init_idt}
use maken_os.Interrupts.Idt.Laws.{Gate, init_idt-gates}

abbrev empty_table : List IdtEntry
empty_table = replicate 256 (record {
  offset_1 = 0;
  selector = 0;
  ist = 0;
  type_attributes = 0;
  offset_2 = 0;
  offset_3 = 0;
  zero_word = 0;
})

-- Stubs of sixteen bytes each.
abbrev stubs : ℕ → ℕ
stubs i = 0x1000 + 16 * (i % 256)

stubs-small : (i : ℕ) → stubs i < 2 ^ 64
stubs-small i = omega arith

init_idt-gates_example :
    Gate stubs stubs empty_table 33 (get_elem? (init_idt stubs stubs empty_table) 33)
init_idt-gates_example =
    init_idt-gates stubs stubs empty_table 33 refl (omega arith) stubs-small stubs-small
