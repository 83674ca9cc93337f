-- ===== src/Interfaces/Madt.antt =====
-- kernel/interfaces/description_tables/madt.c: the table of interrupt controllers.
pub mod Laws
mod Tests
use maken_os.Base.{
  ℕ, zero, suc, ◌+◌, ◌%◌, ◌^◌, Option, none, some, ◌>>=◌, ltb, ◌==◌, if◌then◌else◌, List, [], ◌∷◌,
  ◌++◌, length, Memory, read_le,
}
use maken_os.Interfaces.Acpi.{find_header}

-- `sizeof(MADT)`
abbrev pub madt_size : ℕ
madt_size = 44

-- What `parseMADT` collects, as addresses of records: the used part of each array of 32 elements.
pub record Madt : Type 0 where
  pub processor_apics : List ℕ
  pub ioapics : List ℕ
  pub ioapic_source_overrides : List ℕ
  pub ioapic_interrupt_sources : List ℕ
  pub ioapic_interrupts : List ℕ
  pub lapic_address_overrides : List ℕ
  pub x2_lapics : List ℕ

abbrev pub empty_madt : Madt
empty_madt = record {
  processor_apics = [];
  ioapics = [];
  ioapic_source_overrides = [];
  ioapic_interrupt_sources = [];
  ioapic_interrupts = [];
  lapic_address_overrides = [];
  x2_lapics = [];
}

-- `findHeader` gets the table that lists the others and the address of "APIC".
unfoldable pub init_madt : ℕ → ℕ → Memory → Option ℕ
init_madt rsdt apic m = find_header rsdt apic m

-- A record at the end of the used part of an array: `none` for a write behind the 32 elements, which
-- the code does not guard against.
unfoldable pub put : ℕ → List ℕ → Option (List ℕ)
put head records = if ltb (length records) 32 then some (records ++ (head ∷ [])) else none

-- The branches of the `switch`, the type first: the outer `none` for a type that no case handles,
-- the inner one for a write behind an array.
unfoldable pub keep_record : ℕ → ℕ → Madt → Option (Option Madt)
unfolding put
keep_record entry_type head t =
    if entry_type == 0
    then some (do r ← put head t.processor_apics; some (record t { processor_apics = r }))
    else if entry_type == 1
    then some (do r ← put head t.ioapics; some (record t { ioapics = r }))
    else if entry_type == 2
    then some
        (do r ← put head t.ioapic_source_overrides; some (record t { ioapic_source_overrides = r }))
    else if entry_type == 3
    then some (do
      r ← put head t.ioapic_interrupt_sources
      some (record t { ioapic_interrupt_sources = r }))
    else if entry_type == 4
    then some (do r ← put head t.ioapic_interrupts; some (record t { ioapic_interrupts = r }))
    else if entry_type == 5
    then some
        (do r ← put head t.lapic_address_overrides; some (record t { lapic_address_overrides = r }))
    else if entry_type == 9
    then some (do r ← put head t.x2_lapics; some (record t { x2_lapics = r }))
    else none

-- `length` of the source and the tables after the record at `head`; a type that no case handles leaves both as they
-- are. `none` is a write behind an array.
unfoldable pub parse_record : ℕ → ℕ → Memory → Madt → Option (ℕ × Madt)
parse_record offset head m t = after_switch (keep_record (m head) head t)
  where
    after_switch : Option (Option Madt) → Option (ℕ × Madt)
    after_switch none = some (offset, t)
    after_switch (some none) = none
    after_switch (some (some kept)) = some ((offset + m (head + 1)) % 2 ^ 32, kept)

-- The next round, unless the record was written behind an array.
next_round : (ℕ × Madt → Option (Option Madt)) → Option (ℕ × Madt) → Option (Option Madt)
next_round go none = some none
next_round go (some step) = go step

-- The loop, where `length`, a `uint32_t`, is `offset`. The outer `none` means that the fuel ran out,
-- the inner one that a record was written behind an array.
unfoldable pub parse_from : ℕ → ℕ → ℕ → Memory → Madt → Option (Option Madt)
unfolding next_round
parse_from zero offset madt m t = none
parse_from (suc fuel) offset madt m t =
    let next =
      next_round (λ step. parse_from fuel step.0 madt m step.1)
        (parse_record offset (madt + offset) m t) in
    if ltb offset (read_le 4 m (madt + 4)) then next else some (some t)

unfoldable pub parse_madt : ℕ → ℕ → Memory → Option (Option Madt)
parse_madt fuel madt m = parse_from fuel madt_size madt m empty_madt
