-- ===== src/Interfaces/Acpi/Header.antt =====
-- `findHeader` of kernel/interfaces/acpi.c.
use maken_os.Base.{
  ℕ, zero, suc, ◌+◌, ◌-◌, ◌/◌, ◌^◌, ◌≤◌, ◌<◌, ◌≡◌, refl, ◌∙◌, sym, arith, true, inl, inr,
  Bool-cases, Option, none, some, ◌>>=◌, Memory, read_le,
}
use mathlib.Core.Bool.{false≢true}
use maken_os.Base.First.{First, nowhere, here, later}
use maken_os.Interfaces.Acpi.{
  has_signature, sdt_at, entries_of, header_size, find_from, find_header,
}

abbrev pub Signed : ℕ → ℕ → Memory → ℕ → Type 0
Signed rsdt signature m i = has_signature (sdt_at rsdt i m) signature m ≡ true

find_from-First :
    (left i rsdt signature : ℕ) (m : Memory)
    → (r : Option ℕ) × (find_from left i rsdt signature m ≡ (r >>= λ j. some (sdt_at rsdt j m)))
      × First (Signed rsdt signature m) left i r
unfolding find_from
find_from-First zero i rsdt signature m = (none, refl, nowhere)
find_from-First (suc left) i rsdt signature m =
    elim (Bool-cases (has_signature (sdt_at rsdt i m) signature m)) [
      | inl hit ↦ (some i, rw hit, here hit)
      | inr miss ↦
          let rest = find_from-First left (i + 1) rsdt signature m in
          (rest.0, rw miss rest.1, later (λ hit. false≢true (sym miss ∙ hit)) rest.2)
    ]

-- On a table whose length has 32 bits and covers its header, `findHeader` returns the first of the
-- tables that it lists whose signature is the given one, and NULL if there is none.
find_header-First :
    (rsdt signature : ℕ) (m : Memory)
    → header_size ≤ read_le 4 m (rsdt + 4)
    → read_le 4 m (rsdt + 4) < 2 ^ 32
    → (r : Option ℕ) × (find_header rsdt signature m ≡ (r >>= λ i. some (sdt_at rsdt i m)))
      × First (Signed rsdt signature m) ((read_le 4 m (rsdt + 4) - header_size) / 4) 0 r
unfolding find_header
find_header-First rsdt signature m covers fits =
    let count : entries_of (read_le 4 m (rsdt + 4)) ≡ (read_le 4 m (rsdt + 4) - header_size) / 4 =
      omega arith in
    rw count (find_from-First ((read_le 4 m (rsdt + 4) - header_size) / 4) 0 rsdt signature m)
