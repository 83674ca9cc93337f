-- ===== src/Interrupts.antt =====
-- kernel/interrupts and kernel/gdt.c: the descriptor tables and the dispatch of interrupts.
pub mod Isr
pub mod Idt
pub mod Gdt
