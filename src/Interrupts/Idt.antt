-- ===== src/Interrupts/Idt.antt =====
-- kernel/interrupts/idt.c: the interrupt descriptor table.
pub mod Laws
mod Tests
use maken_os.Base.{ℕ, zero, suc, ◌+◌, ◌-◌, ◌%◌, ◌^◌, List, set, bit_and, ◌>>>◌}

-- `struct IDTEntry`
pub record IdtEntry : Type 0 where
  pub offset_1 : ℕ
  pub selector : ℕ
  pub ist : ℕ
  pub type_attributes : ℕ
  pub offset_2 : ℕ
  pub offset_3 : ℕ
  pub zero_word : ℕ

-- The arguments and members have their widths: 64, 16, 8 and 8 bits; 16, 16 and 32 for the parts.
unfoldable pub set_idt_entry : ℕ → ℕ → ℕ → ℕ → IdtEntry
set_idt_entry offset selector ist type_attributes = record {
  offset_1 = bit_and offset 0xffff;
  selector = selector % 2 ^ 16;
  ist = ist % 2 ^ 8;
  type_attributes = type_attributes % 2 ^ 8;
  offset_2 = bit_and (offset >>> 16) 0xffff;
  offset_3 = bit_and (offset >>> 32) 0xffffffff;
  zero_word = 0;
}

-- A loop of `initIdt`: the gates from `i` on, `left` of them, point to the stubs of `table`.
fill_gates : ℕ → ℕ → (ℕ → ℕ) → List IdtEntry → List IdtEntry
fill_gates zero i table entries = entries
fill_gates (suc left) i table entries =
    fill_gates left (i + 1) table (set entries i (set_idt_entry (table i) 0x28 0 0x8e))

-- The stub tables are addresses that the assembler file lays out. `lidt` and `sti` follow.
unfoldable pub init_idt : (ℕ → ℕ) → (ℕ → ℕ) → List IdtEntry → List IdtEntry
unfolding fill_gates
init_idt isr_stub_table irq_stub_table idt_entries =
    fill_gates 223 32 (λ i. irq_stub_table (i - 32))
      (fill_gates 32 0 (λ i. isr_stub_table i) idt_entries)
