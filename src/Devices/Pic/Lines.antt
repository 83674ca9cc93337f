-- ===== src/Devices/Pic/Lines.antt =====
-- What kernel/devices/pic.c promises of its masks, as operations on a set of lines, and that the
-- code on the two controllers does it.
use maken_os.Base.{ℕ, ◌<◌, ◌≡◌, refl, ◌∙◌, arith, ◌==◌, if◌then◌else◌, List, [], ◌∷◌}
use maken_os.Sys.{Machine, Kernel}
use maken_os.Devices.Pic.{set_mask_irq, clear_mask_irq, disable_all_irqs, enable_all_irqs}
use maken_os.Devices.Pic.Masks.{
  MaskPorts, masked, set_mask_irq_lem, clear_mask_irq_lem, all_irqs_lem,
}

-- The calls that change a mask.
pub data Call : Type 0 where
  set_mask clear_mask : ℕ → Call
  disable_all enable_all : Call

-- The lines that are masked, 1 for each.
abbrev pub Lines : Type 0
Lines = ℕ → ℕ

pub call_lines : Call → Lines → Lines
call_lines (set_mask line) lines j = if line == j then 1 else lines j
call_lines (clear_mask line) lines j = if line == j then 0 else lines j
call_lines disable_all lines j = 1
call_lines enable_all lines j = 0

pub calls_lines : List Call → Lines → Lines
calls_lines [] lines = lines
calls_lines (c ∷ cs) lines = calls_lines cs (call_lines c lines)

-- The lines of the calls exist.
unfoldable pub IsOnLines : List Call → Type 0
IsOnLines [] = Unit
IsOnLines (set_mask line ∷ cs) = (line < 16) × IsOnLines cs
IsOnLines (clear_mask line ∷ cs) = (line < 16) × IsOnLines cs
IsOnLines (c ∷ cs) = IsOnLines cs

module _ {S : Type 0} ⦃machine : Machine S⦄ where
  pub call_pics : Call → Kernel S → Kernel S
  call_pics (set_mask line) k = (set_mask_irq line k).1
  call_pics (clear_mask line) k = (clear_mask_irq line k).1
  call_pics disable_all k = (disable_all_irqs k).1
  call_pics enable_all k = (enable_all_irqs k).1

  pub calls_pics : List Call → Kernel S → Kernel S
  calls_pics [] k = k
  calls_pics (c ∷ cs) k = calls_pics cs (call_pics c k)

calls_lines_ext :
    (cs : List Call) (lines lines' : Lines)
    → ((j : ℕ) → j < 16 → lines j ≡ lines' j)
    → (j : ℕ) → j < 16
    → calls_lines cs lines j ≡ calls_lines cs lines' j
unfolding calls_lines call_lines
calls_lines_ext [] lines lines' same j h = same j h
calls_lines_ext (set_mask line ∷ cs) lines lines' same j h =
    calls_lines_ext cs _ _ (λ i lt. ground (arith, same i lt)) j h
calls_lines_ext (clear_mask line ∷ cs) lines lines' same j h =
    calls_lines_ext cs _ _ (λ i lt. ground (arith, same i lt)) j h
calls_lines_ext (disable_all ∷ cs) lines lines' same j h = refl
calls_lines_ext (enable_all ∷ cs) lines lines' same j h = refl

module _ {S : Type 0} ⦃machine : Machine S⦄ {mask : ℕ → S → ℕ} (laws : MaskPorts machine mask) where
  -- Where the data ports hold the masks of the controllers, any sequence of calls of `setMaskIRQ`
  -- and `clearMaskIRQ` on lines below 16, `disableAllIRQs` and `enableAllIRQs` masks exactly the
  -- lines that the same operations on the set of masked lines give.
  pub calls_pics-calls_lines :
      (cs : List Call) (k : Kernel S) (j : ℕ)
      → IsOnLines cs
      → j < 16
      → masked laws j (calls_pics cs k) ≡ calls_lines cs (λ i. masked laws i k) j
  unfolding calls_pics calls_lines call_pics call_lines IsOnLines
  calls_pics-calls_lines [] k j on h = refl
  calls_pics-calls_lines (set_mask line ∷ cs) k j on h =
      calls_pics-calls_lines cs (set_mask_irq line k).1 j on.1 h
      ∙ calls_lines_ext cs _ _ (λ i lt. set_mask_irq_lem laws line i k on.0 lt) j h
  calls_pics-calls_lines (clear_mask line ∷ cs) k j on h =
      calls_pics-calls_lines cs (clear_mask_irq line k).1 j on.1 h
      ∙ calls_lines_ext cs _ _ (λ i lt. clear_mask_irq_lem laws line i k on.0 lt) j h
  calls_pics-calls_lines (disable_all ∷ cs) k j on h =
      calls_pics-calls_lines cs (disable_all_irqs k).1 j on h
      ∙ calls_lines_ext cs _ _ (λ i lt. (all_irqs_lem laws i k lt).0) j h
  calls_pics-calls_lines (enable_all ∷ cs) k j on h =
      calls_pics-calls_lines cs (enable_all_irqs k).1 j on h
      ∙ calls_lines_ext cs _ _ (λ i lt. (all_irqs_lem laws i k lt).1) j h
