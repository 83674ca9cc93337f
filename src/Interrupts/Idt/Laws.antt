-- ===== src/Interrupts/Idt/Laws.antt =====
-- The gates that `initIDT` of kernel/interrupts/idt.c installs.
use mathlib.Core.Path.{subst}
use maken_os.Base.{
  Option, ℕ, zero, suc, ◌+◌, ◌-◌, ◌*◌, ◌^◌, ◌≤◌, ◌<◌, ◌≡◌, refl, ◌∙◌, sym, ap, arith, List, some,
  inl, inr, ◌⊎◌, length, get_elem?, set, length-set, get_elem?-set_self, get_elem?-set_ne,
  bit_and_mask, ◌>>>◌,
}
use native.Mathlib.Decide.{ℕ_discrete, dec_lt}
use maken_os.Interrupts.Idt.{IdtEntry, set_idt_entry, fill_gates, init_idt}

-- What the processor reads from a gate: the three parts of the offset fit their widths and make up
-- the 64-bit address of the stub; the selector, the stack number and the attributes are those of an
-- interrupt gate of the kernel's code segment.
pub record PointsTo (stub : ℕ) (e : IdtEntry) : Type 0 where
  pub offset : e.offset_1 + e.offset_2 * 2 ^ 16 + e.offset_3 * 2 ^ 32 ≡ stub
  pub low : e.offset_1 < 2 ^ 16
  pub middle : e.offset_2 < 2 ^ 16
  pub high : e.offset_3 < 2 ^ 32
  pub selector : e.selector ≡ 0x28
  pub ist : e.ist ≡ 0
  pub type_attributes : e.type_attributes ≡ 0x8e
  pub zero_word : e.zero_word ≡ 0

abbrev gate : ℕ → IdtEntry
gate offset = set_idt_entry offset 0x28 0 0x8e

gate-PointsTo : (stub : ℕ) → stub < 2 ^ 64 → PointsTo stub (gate stub)
unfolding set_idt_entry
gate-PointsTo stub small =
    let low = bit_and_mask 16 stub in
    let middle = bit_and_mask 16 (stub >>> 16) in
    let high = bit_and_mask 32 (stub >>> 32) in
    record {
      offset = omega (arith, low, middle, high);
      low = omega (arith, low);
      middle = omega (arith, middle);
      high = omega (arith, high);
      selector = refl;
      ist = refl;
      type_attributes = refl;
      zero_word = refl;
    }

fill_gates-length :
    (left i : ℕ) (table : ℕ → ℕ) (entries : List IdtEntry)
    → length (fill_gates left i table entries) ≡ length entries
unfolding fill_gates
fill_gates-length zero i table entries = refl
fill_gates-length (suc left) i table entries =
    fill_gates-length left (i + 1) table (set entries i (gate (table i)))
    ∙ length-set entries i (gate (table i))

fill_gates-outside :
    (left i j : ℕ) (table : ℕ → ℕ) (entries : List IdtEntry)
    → (j < i) ⊎ (i + left ≤ j)
    → get_elem? (fill_gates left i table entries) j ≡ get_elem? entries j
unfolding fill_gates
fill_gates-outside zero i j table entries out = refl
fill_gates-outside (suc left) i j table entries out =
    fill_gates-outside left (i + 1) j table (set entries i (gate (table i))) (omega arith)
    ∙ get_elem?-set_ne entries i j (gate (table i)) (λ e. omega arith)

fill_gates-inside :
    (left i j : ℕ) (table : ℕ → ℕ) (entries : List IdtEntry)
    → i ≤ j
    → j < i + left
    → i + left ≤ length entries
    → get_elem? (fill_gates left i table entries) j ≡ some (gate (table j))
unfolding fill_gates
fill_gates-inside zero i j table entries lo hi fits = absurd (omega arith)
fill_gates-inside (suc left) i j table entries lo hi fits = elim (ℕ_discrete i j) [
  | yes e ↦
      fill_gates-outside left (i + 1) j table (set entries i (gate (table i))) (omega arith)
      ∙ ap (get_elem? (set entries i (gate (table i)))) (sym e)
      ∙ get_elem?-set_self entries i (gate (table i)) (omega arith)
      ∙ ap (λ (t : ℕ). some (gate (table t))) e
  | no ne ↦
      fill_gates-inside left (i + 1) j table (set entries i (gate (table i))) (omega arith)
        (omega arith) (omega (arith, length-set entries i (gate (table i))))
]

-- The gates of the exceptions, of the interrupts up to 254, and the last one.
pub data Gate (isr_stub_table irq_stub_table : ℕ → ℕ) (before : List IdtEntry) (j : ℕ)
    : Option IdtEntry → Type 0 where
  exception :
      {e : IdtEntry}
      → j < 32
      → PointsTo (isr_stub_table j) e
      → Gate isr_stub_table irq_stub_table before j (some e)
  interrupt :
      {e : IdtEntry}
      → 32 ≤ j
      → j < 255
      → PointsTo (irq_stub_table (j - 32)) e
      → Gate isr_stub_table irq_stub_table before j (some e)
  last : j ≡ 255 → Gate isr_stub_table irq_stub_table before j (get_elem? before j)

-- In a table of 256 entries, `initIdt` points the gates of the exceptions to the stubs of the first
-- table and those of the interrupts up to 254 to the stubs of the second, counted from 32, where the
-- stubs are 64-bit addresses: the parts of each gate make up the address, with the selector 0x28, the
-- stack 0 and the attributes 0x8e. It leaves the last gate as it is.
pub init_idt-gates :
    (isr_stub_table irq_stub_table : ℕ → ℕ) (idt_entries : List IdtEntry) (j : ℕ)
    → length idt_entries ≡ 256
    → j < 256
    → ((i : ℕ) → isr_stub_table i < 2 ^ 64)
    → ((i : ℕ) → irq_stub_table i < 2 ^ 64)
    → Gate isr_stub_table irq_stub_table idt_entries j
        (get_elem? (init_idt isr_stub_table irq_stub_table idt_entries) j)
unfolding init_idt
init_idt-gates isr_stub_table irq_stub_table idt_entries j size small isr irq =
    let Held = Gate isr_stub_table irq_stub_table idt_entries j in
    let first = fill_gates 32 0 (λ i. isr_stub_table i) idt_entries in
    let size1 = fill_gates-length 32 0 (λ i. isr_stub_table i) idt_entries in
    elim (dec_lt j 32) [
      | yes low ↦
          subst Held
            (sym (
              fill_gates-outside 223 32 j (λ i. irq_stub_table (i - 32)) first (inl low)
              ∙ fill_gates-inside 32 0 j (λ i. isr_stub_table i) idt_entries (omega arith)
                  (omega arith) (omega arith)))
            (exception low (gate-PointsTo (isr_stub_table j) (isr j)))
      | no not_low ↦ elim (dec_lt j 255) [
        | yes below ↦
            subst Held
              (sym (
                fill_gates-inside 223 32 j (λ i. irq_stub_table (i - 32)) first (omega arith)
                  (omega arith) (omega arith)))
              (interrupt (omega arith) below
                (gate-PointsTo (irq_stub_table (j - 32)) (irq (j - 32))))
        | no at_end ↦
            subst Held
              (sym (
                fill_gates-outside 223 32 j (λ i. irq_stub_table (i - 32)) first (inr (omega arith))
                ∙ fill_gates-outside 32 0 j (λ i. isr_stub_table i) idt_entries
                    (inr (omega arith))))
              (last (omega arith))
      ]
    ]
