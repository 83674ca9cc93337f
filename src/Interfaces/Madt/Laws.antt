-- ===== src/Interfaces/Madt/Laws.antt =====
-- What `parseMADT` collects, and when it ends.
use mathlib.Core.List.{append-nil, append_assoc}
use maken_os.Base.{
  length-append, sym, ℕ, zero, suc, ◌+◌, ◌%◌, ◌^◌, ◌≤◌, ◌<◌, ◌≡◌, refl, ◌∙◌, ap, arith, true, none,
  some, ◌||◌, List, [], ◌∷◌, ◌==◌, if◌then◌else◌, length, ◌++◌, ltb, lt→ltb, le→ltb, Memory,
  IsBytes, read_le,
}
use maken_os.Interfaces.Madt.{
  put, next_round, Madt, empty_madt, madt_size, keep_record, parse_record, parse_from, parse_madt,
}

-- From the offset on, the table is a row of records at the given addresses, each of a type that
-- the code handles and of a length that is not zero.
pub data Records (madt : ℕ) (m : Memory) : ℕ → List ℕ → Type 0 where
  end : {offset : ℕ} → read_le 4 m (madt + 4) ≤ offset → Records madt m offset []
  entry :
      {offset : ℕ} {heads : List ℕ}
      → offset < read_le 4 m (madt + 4)
      → (ltb (m (madt + offset)) 6 || m (madt + offset) == 9) ≡ true
      → 0 < m (madt + offset + 1)
      → Records madt m (offset + m (madt + offset + 1)) heads
      → Records madt m offset ((madt + offset) ∷ heads)

-- The records of a type, in order.
unfoldable pub of_type : ℕ → List ℕ → Memory → List ℕ
of_type kind [] m = []
of_type kind (head ∷ heads) m =
    let rest = of_type kind heads m in if m head == kind then head ∷ rest else rest

-- Each array holds the records of its type.
pub record Collected (heads : List ℕ) (m : Memory) (r : Madt) : Type 0 where
  pub processor_apics : r.processor_apics ≡ of_type 0 heads m
  pub ioapics : r.ioapics ≡ of_type 1 heads m
  pub ioapic_source_overrides : r.ioapic_source_overrides ≡ of_type 2 heads m
  pub ioapic_interrupt_sources : r.ioapic_interrupt_sources ≡ of_type 3 heads m
  pub ioapic_interrupts : r.ioapic_interrupts ≡ of_type 4 heads m
  pub lapic_address_overrides : r.lapic_address_overrides ≡ of_type 5 heads m
  pub x2_lapics : r.x2_lapics ≡ of_type 9 heads m

-- The array of a type.
array : ℕ → Madt → List ℕ
array kind t =
    if kind == 0
    then t.processor_apics
    else if kind == 1
    then t.ioapics
    else if kind == 2
    then t.ioapic_source_overrides
    else if kind == 3
    then t.ioapic_interrupt_sources
    else if kind == 4
    then t.ioapic_interrupts
    else if kind == 5
    then t.lapic_address_overrides
    else t.x2_lapics

abbrev IsHandled : ℕ → Type 0
IsHandled kind = (ltb kind 6 || kind == 9) ≡ true

abbrev one_of : ℕ → ℕ → ℕ → List ℕ
one_of kind head entry_type = if entry_type == kind then head ∷ [] else []

put-room :
    (head : ℕ) (records : List ℕ)
    → length records < 32
    → put head records ≡ some (records ++ (head ∷ []))
unfolding put
put-room head records room = rw (lt→ltb (length records) 32 room) refl

-- A handled type with room in its array.
abbrev KeptIn : ℕ → ℕ → Madt → Type 0
KeptIn entry_type head t =
    (kept : Madt) × (keep_record entry_type head t ≡ some (some kept))
    × ((kind : ℕ) → IsHandled kind → array kind kept ≡ array kind t ++ one_of kind head entry_type)

keep_record-KeptIn :
    (entry_type head : ℕ) (t : Madt)
    → IsHandled entry_type
    → length (array entry_type t) < 32
    → KeptIn entry_type head t
unfolding keep_record array
keep_record-KeptIn zero head t known room = (
  record t { processor_apics = t.processor_apics ++ (head ∷ []) },
  rw (put-room head t.processor_apics room) refl,
  λ kind handled. ground (arith, append-nil (array kind t)),
)
keep_record-KeptIn (suc zero) head t known room = (
  record t { ioapics = t.ioapics ++ (head ∷ []) },
  rw (put-room head t.ioapics room) refl,
  λ kind handled. ground (arith, append-nil (array kind t)),
)
keep_record-KeptIn (suc (suc zero)) head t known room = (
  record t { ioapic_source_overrides = t.ioapic_source_overrides ++ (head ∷ []) },
  rw (put-room head t.ioapic_source_overrides room) refl,
  λ kind handled. ground (arith, append-nil (array kind t)),
)
keep_record-KeptIn (suc (suc (suc zero))) head t known room = (
  record t { ioapic_interrupt_sources = t.ioapic_interrupt_sources ++ (head ∷ []) },
  rw (put-room head t.ioapic_interrupt_sources room) refl,
  λ kind handled. ground (arith, append-nil (array kind t)),
)
keep_record-KeptIn (suc (suc (suc (suc zero)))) head t known room = (
  record t { ioapic_interrupts = t.ioapic_interrupts ++ (head ∷ []) },
  rw (put-room head t.ioapic_interrupts room) refl,
  λ kind handled. ground (arith, append-nil (array kind t)),
)
keep_record-KeptIn (suc (suc (suc (suc (suc zero))))) head t known room = (
  record t { lapic_address_overrides = t.lapic_address_overrides ++ (head ∷ []) },
  rw (put-room head t.lapic_address_overrides room) refl,
  λ kind handled. ground (arith, append-nil (array kind t)),
)
keep_record-KeptIn (suc (suc (suc (suc (suc (suc zero)))))) head t known room =
    absurd (ground (arith, known))
keep_record-KeptIn (suc (suc (suc (suc (suc (suc (suc zero))))))) head t known room =
    absurd (ground (arith, known))
keep_record-KeptIn (suc (suc (suc (suc (suc (suc (suc (suc zero)))))))) head t known room =
    absurd (ground (arith, known))
keep_record-KeptIn (suc (suc (suc (suc (suc (suc (suc (suc (suc zero))))))))) head t known room = (
  record t { x2_lapics = t.x2_lapics ++ (head ∷ []) },
  rw (put-room head t.x2_lapics room) refl,
  λ kind handled. ground (arith, append-nil (array kind t)),
)
keep_record-KeptIn (suc (suc (suc (suc (suc (suc (suc (suc (suc (suc n)))))))))) head t known room =
    absurd (ground (arith, known))

of_type-cons :
    (kind head : ℕ) (heads : List ℕ) (m : Memory)
    → of_type kind (head ∷ heads) m ≡ one_of kind head (m head) ++ of_type kind heads m
unfolding of_type
of_type-cons kind head heads m = ground arith

parse_record-kept :
    (offset head : ℕ) (m : Memory) (t : Madt) {kept : Madt}
    → keep_record (m head) head t ≡ some (some kept)
    → parse_record offset head m t ≡ some ((offset + m (head + 1)) % 2 ^ 32, kept)
unfolding parse_record
parse_record-kept offset head m t e = rw e refl

parse_record-unknown :
    (offset head : ℕ) (m : Memory) (t : Madt)
    → keep_record (m head) head t ≡ none
    → parse_record offset head m t ≡ some (offset, t)
unfolding parse_record
parse_record-unknown offset head m t e = rw e refl

-- The records at `heads` fit behind what the arrays hold.
abbrev Fits : Madt → List ℕ → Memory → Type 0
Fits t heads m =
    (kind : ℕ) → IsHandled kind → length (array kind t) + length (of_type kind heads m) ≤ 32

-- The arrays of `r` are those of `t` with the records at `heads` behind them.
abbrev Extends : Madt → List ℕ → Memory → Madt → Type 0
Extends t heads m r =
    (kind : ℕ) → IsHandled kind → array kind r ≡ array kind t ++ of_type kind heads m

module _ (head : ℕ) (heads : List ℕ) (m : Memory) (t : Madt) (known : IsHandled (m head))
    (fits : Fits t (head ∷ heads) m) where
  room : length (array (m head) t) < 32
  room =
      let all = fits (m head) known in
      let more = ap length (of_type-cons (m head) head heads m) in ground (arith, more)

  module _ (kept : Madt)
      (added : (kind : ℕ)
        → IsHandled kind
        → array kind kept ≡ array kind t ++ one_of kind head (m head)) where
    rest-Fits : Fits kept heads m
    rest-Fits kind handled =
        let all = fits kind handled in
        let more = ap length (of_type-cons kind head heads m) in
        let more' = length-append (one_of kind head (m head)) (of_type kind heads m) in
        let now = ap length (added kind handled) in
        let now' = length-append (array kind t) (one_of kind head (m head)) in omega arith

    all-Extends : (r : Madt) → Extends kept heads m r → Extends t (head ∷ heads) m r
    all-Extends r rest kind handled =
        rest kind handled
        ∙ ap (λ (xs : List ℕ). xs ++ of_type kind heads m) (added kind handled)
        ∙ append_assoc (array kind t) (one_of kind head (m head)) (of_type kind heads m)
        ∙ ap (λ (xs : List ℕ). array kind t ++ xs) (sym (of_type-cons kind head heads m))

parse_from-Extends :
    (fuel offset madt : ℕ) {heads : List ℕ} (m : Memory) (t : Madt)
    → IsBytes m
    → read_le 4 m (madt + 4) + 256 ≤ 2 ^ 32
    → Records madt m offset heads
    → Fits t heads m
    → offset < read_le 4 m (madt + 4) + 256
    → read_le 4 m (madt + 4) + 256 ≤ fuel + offset
    → (r : Madt) × (parse_from fuel offset madt m t ≡ some (some r)) × Extends t heads m r
unfolding parse_from of_type next_round
parse_from-Extends zero offset madt m t h small rows fits below enough = absurd (omega arith)
parse_from-Extends (suc fuel) offset madt m t h small (end past) fits below enough = (
  t,
  rw (le→ltb offset (read_le 4 m (madt + 4)) past) refl,
  λ kind handled. sym (append-nil (array kind t)),
)
parse_from-Extends (suc fuel) offset madt {heads} m t h small
      (entry {heads = later} inside known moves rows) fits below enough =
    let head = madt + offset in
    let kept = keep_record-KeptIn (m head) head t known (room head later m t known fits) in
    let move : (offset + m (head + 1)) % 2 ^ 32 ≡ offset + m (head + 1) =
      omega (arith, h (head + 1)) in
    let step : parse_record offset head m t ≡ some (offset + m (head + 1), kept.0) =
      parse_record-kept offset head m t kept.1 ∙ ap (λ (l : ℕ). some (l, kept.0)) move in
    let rest =
      parse_from-Extends fuel (offset + m (head + 1)) madt m kept.0 h small rows
        (rest-Fits head later m t known fits kept.0 kept.2) (omega (arith, h (head + 1)))
        (omega arith) in
    (
      rest.0,
      rw (lt→ltb offset (read_le 4 m (madt + 4)) inside) (rw step rest.1),
      all-Extends head later m t known fits kept.0 kept.2 rest.0 rest.2,
    )

-- On a table of at most 2^32 - 256 bytes that is a row of records of known types and of lengths that
-- are not zero, at most 32 of a type, with fuel for its length and 256, `parseMADT` ends and has
-- written behind no array, and each array holds the records of its type, in order.
pub parse_madt-Collected :
    (fuel madt : ℕ) {heads : List ℕ} (m : Memory)
    → IsBytes m
    → read_le 4 m (madt + 4) + 256 ≤ 2 ^ 32
    → Records madt m madt_size heads
    → ((kind : ℕ) → length (of_type kind heads m) ≤ 32)
    → read_le 4 m (madt + 4) + 256 ≤ fuel
    → (r : Madt) × (parse_madt fuel madt m ≡ some (some r)) × Collected heads m r
unfolding parse_madt array
parse_madt-Collected fuel madt {heads} m h small rows fits enough =
    let parsed =
      parse_from-Extends fuel madt_size madt m empty_madt h small rows
        (λ kind handled. ground (arith, fits kind)) (omega arith) (omega arith) in
    let all = parsed.2 in
    (
      parsed.0,
      parsed.1,
      record {
        processor_apics = all 0 refl;
        ioapics = all 1 refl;
        ioapic_source_overrides = all 2 refl;
        ioapic_interrupt_sources = all 3 refl;
        ioapic_interrupts = all 4 refl;
        lapic_address_overrides = all 5 refl;
        x2_lapics = all 9 refl;
      },
    )

-- A record of a type that no case handles, where the loop meets it, keeps the loop there: it does
-- not end with any fuel.
pub parse_from-stuck :
    (fuel offset madt : ℕ) (m : Memory) (t : Madt)
    → offset < read_le 4 m (madt + 4)
    → keep_record (m (madt + offset)) (madt + offset) t ≡ none
    → parse_from fuel offset madt m t ≡ none
unfolding parse_from next_round
parse_from-stuck zero offset madt m t below unknown = refl
parse_from-stuck (suc fuel) offset madt m t below unknown =
    let step : parse_record offset (madt + offset) m t ≡ some (offset, t) =
      parse_record-unknown offset (madt + offset) m t unknown in
    rw step (
      rw (lt→ltb offset (read_le 4 m (madt + 4)) below)
        (parse_from-stuck fuel offset madt m t below unknown))
