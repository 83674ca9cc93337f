-- ===== src/Devices/Ahci/Slots.antt =====
-- The command slots of kernel/devices/ahci.c.
use maken_os.Base.{
  ℕ, zero, suc, ◌+◌, ◌≡◌, ◌∙◌, ap, arith, max, Bool-cases, inl, inr, ◌==◌, bit_and, bit_or, ◌>>>◌,
  bit, bit-bit_or, shr-bit_and_one, shr-suc,
}
use maken_os.Base.First.{First, nowhere, here, later}
use maken_os.Devices.Ahci.{slot_from, free_slot}

-- Neither register has the bit of the slot.
abbrev pub IsFreeSlot : ℕ → ℕ → ℕ → Type 0
IsFreeSlot sact ci i = (bit sact i ≡ 0) × (bit ci i ≡ 0)

slot_from-First :
    (left i sact ci slots : ℕ)
    → slots ≡ bit_or sact ci >>> i
    → First (IsFreeSlot sact ci) left i (slot_from left i slots)
unfolding slot_from
slot_from-First zero i sact ci slots e = nowhere
slot_from-First (suc left) i sact ci slots e =
    let low : bit_and slots 1 ≡ max (bit sact i) (bit ci i) =
      ap (λ (t : ℕ). bit_and t 1) e ∙ shr-bit_and_one (bit_or sact ci) i ∙ bit-bit_or i sact ci in
    let next : slots >>> 1 ≡ bit_or sact ci >>> (i + 1) =
      ap (λ (t : ℕ). t >>> 1) e ∙ shr-suc (bit_or sact ci) i in
    elim (Bool-cases (bit_and slots 1 == 0)) [
      | inl clear ↦ rw clear (here (ground (arith, clear, low), ground (arith, clear, low)))
      | inr taken ↦ rw taken (
          later (λ free. ground (arith, taken, low, free.0, free.1))
            (slot_from-First left (i + 1) sact ci (slots >>> 1) next))
    ]

-- The slot that `findCMDSlot` returns is the lowest of the given number whose bit is clear in both
-- registers, and it returns none exactly where there is none.
pub free_slot-First :
    (sact ci cmd_slots : ℕ) → First (IsFreeSlot sact ci) cmd_slots 0 (free_slot sact ci cmd_slots)
unfolding free_slot
free_slot-First sact ci cmd_slots =
    slot_from-First cmd_slots 0 sact ci (bit_or sact ci) (ground arith)
