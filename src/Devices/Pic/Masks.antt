-- ===== src/Devices/Pic/Masks.antt =====
-- The interrupt masks that the functions of kernel/devices/pic.c set, over controllers whose data
-- ports hold their mask registers.
use native.Mathlib.Nat.{mod-eq_of_lt, mod-mod, mod-lt}
use native.Mathlib.Decide.{ℕ_discrete}
use maken_os.Base.{
  ℕ, zero, suc, ◌+◌, ◌-◌, ◌%◌, ◌^◌, ◌<◌, ◌≡◌, ◌≢◌, refl, ◌∙◌, sym, ap, arith, ◌⊎◌, Bool, true, ◌&&◌,
  ◌==◌, ltb, if◌then◌else◌, bit_and, bit_or, bit, bit-le-one, bit-bit_and, bit-mod, bit_or-lt,
  two-pow-lt, bit-bit_or-pow_self, bit-bit_or-pow_ne,
}
use maken_os.Sys.{Machine, Kernel, inb, outb}
use maken_os.Devices.Pic.{
  pic1_data, pic2_data, data_port, own_line, set_mask_irq, clear_mask_irq, disable_from,
  enable_from, disable_all_irqs, enable_all_irqs,
}

abbrev pub IsDataPort : ℕ → Type 0
IsDataPort port = (port ≡ pic1_data) ⊎ (port ≡ pic2_data)

-- The 8259 outside its initialisation: a data port reads and writes the mask register of its
-- controller, which is `mask port` of the machine's state.
pub record MaskPorts {S : Type 0} (machine : Machine S) (mask : ℕ → S → ℕ) : Type 0 where
  pub fits : (port : ℕ) (s : S) → mask port s < 256
  pub read : (port : ℕ) (s : S) → IsDataPort port → machine.read_port8 port s ≡ (mask port s, s)
  pub write_self :
      (port v : ℕ) (s : S)
      → IsDataPort port
      → v < 256
      → mask port (machine.write_port8 port v s).1 ≡ v
  pub write_other :
      (port other v : ℕ) (s : S)
      → IsDataPort port
      → IsDataPort other
      → port ≢ other
      → mask other (machine.write_port8 port v s).1 ≡ mask other s

-- The bits of `~(1 << k)`, for a line and a bit of one controller.
complement_row : ℕ → ℕ → Bool
complement_row k zero = true
complement_row k (suc n) =
    (bit (2 ^ 32 - 1 - 2 ^ k) n == (if k == n then 0 else 1)) && complement_row k n

complement_table : ℕ → Bool
complement_table zero = true
complement_table (suc k) = complement_row k 8 && complement_table k

complement_table_checked : complement_table 8 ≡ true
unfolding complement_table complement_row bit
complement_table_checked = refl

complement_row_lem :
    (k n i : ℕ)
    → complement_row k n ≡ true
    → i < n
    → bit (2 ^ 32 - 1 - 2 ^ k) i ≡ (if k == i then 0 else 1)
unfolding complement_row
complement_row_lem k zero i h lt = absurd (omega arith)
complement_row_lem k (suc n) i h lt = ground (arith, complement_row_lem k n i)

complement_table_lem : (n k : ℕ) → complement_table n ≡ true → k < n → complement_row k 8 ≡ true
unfolding complement_table
complement_table_lem zero k h lt = absurd (omega arith)
complement_table_lem (suc n) k h lt = ground (arith, complement_table_lem n k)

complement_bit : (k i : ℕ) → k < 8 → i < 8 → bit (2 ^ 32 - 1 - 2 ^ k) i ≡ (if k == i then 0 else 1)
complement_bit k i hk hi =
    complement_row_lem k 8 i (complement_table_lem 8 k complement_table_checked hk) hi

-- The values that the two functions write.
set_value :
    (x k i : ℕ)
    → x < 256
    → k < 8
    → i < 8
    → bit (bit_or x (2 ^ k) % 2 ^ 8) i ≡ (if k == i then 1 else bit x i)
set_value x k i hx hk hi =
    ap (λ (t : ℕ). bit t i) (mod-eq_of_lt (bit_or-lt 8 x (2 ^ k) hx (two-pow-lt k 8 hk)))
    ∙ ground (arith, bit-bit_or-pow_self x k, bit-bit_or-pow_ne x k i)

clear_value :
    (x k i : ℕ)
    → x < 256
    → k < 8
    → i < 8
    → bit (bit_and x (2 ^ 32 - 1 - 2 ^ k) % 2 ^ 8) i ≡ (if k == i then 0 else bit x i)
clear_value x k i hx hk hi =
    bit-mod 8 (bit_and x (2 ^ 32 - 1 - 2 ^ k)) i hi
    ∙ bit-bit_and i x (2 ^ 32 - 1 - 2 ^ k)
    ∙ ground (arith, complement_bit k i hk hi, bit-le-one i x)

abbrev set_in : ℕ → ℕ → ℕ
set_in line old = bit_or old (2 ^ own_line line) % 2 ^ 8

abbrev clear_in : ℕ → ℕ → ℕ
clear_in line old = bit_and old (2 ^ 32 - 1 - 2 ^ own_line line) % 2 ^ 8

module _ {S : Type 0} ⦃machine : Machine S⦄ {mask : ℕ → S → ℕ} (laws : MaskPorts machine mask) where
  -- Whether a line is masked: 1 if it is.
  abbrev pub masked : ℕ → Kernel S → ℕ
  masked line k = bit (mask (data_port line) k.bus) (own_line line)

  data_port-IsDataPort : (line : ℕ) → IsDataPort (data_port line)
  data_port-IsDataPort line = ground arith

  -- Both functions read the mask of the line's controller and write it back through `f`.
  abbrev rewritten : (ℕ → ℕ) → ℕ → Kernel S → S
  rewritten f line k =
      (machine.write_port8 (data_port line) (f (mask (data_port line) k.bus)) k.bus).1

  port_fits : (line : ℕ) → data_port line % 2 ^ 16 ≡ data_port line
  port_fits line = ground arith

  bus-set_mask_irq :
      (line : ℕ) (k : Kernel S) → (set_mask_irq line k).1.bus ≡ rewritten (set_in line) line k
  unfolding set_mask_irq inb outb
  bus-set_mask_irq line k =
      simp (port_fits line, laws.read (data_port line) k.bus (data_port-IsDataPort line), mod-mod)

  bus-clear_mask_irq :
      (line : ℕ) (k : Kernel S) → (clear_mask_irq line k).1.bus ≡ rewritten (clear_in line) line k
  unfolding clear_mask_irq inb outb
  bus-clear_mask_irq line k =
      simp (port_fits line, laws.read (data_port line) k.bus (data_port-IsDataPort line), mod-mod)

  -- The mask of a line after its controller, or the other one, has got a new mask.
  mask-rewritten :
      (f : ℕ → ℕ) (line j : ℕ) (k : Kernel S)
      → ((x : ℕ) → f x < 256)
      → mask (data_port j) (rewritten f line k) ≡ (
          if data_port line == data_port j
          then f (mask (data_port line) k.bus)
          else mask (data_port j) k.bus)
  mask-rewritten f line j k small = elim (ℕ_discrete (data_port line) (data_port j)) [
    | yes same ↦
        ap (λ (t : ℕ). mask t (rewritten f line k)) (sym same)
        ∙ laws.write_self (data_port line) _ k.bus (data_port-IsDataPort line) (small _)
        ∙ ground arith
    | no ne ↦
        laws.write_other (data_port line) (data_port j) _ k.bus (data_port-IsDataPort line)
          (data_port-IsDataPort j) ne
        ∙ ground arith
  ]

  -- The mask of line `j` then, where `f` puts bit `own_line line` to `v` and no other.
  masked-rewritten :
      (f : ℕ → ℕ) (v line j : ℕ) (k : Kernel S)
      → ((x : ℕ) → f x < 256)
      → (bit (f (mask (data_port line) k.bus)) (own_line j) ≡ (
          if own_line line == own_line j
          then v
          else bit (mask (data_port line) k.bus) (own_line j)))
      → line < 16
      → j < 16
      → bit (mask (data_port j) (rewritten f line k)) (own_line j)
        ≡ (if line == j then v else masked j k)
  masked-rewritten f v line j k small value hl hj =
      elim (ℕ_discrete (data_port line) (data_port j)) [
        | yes same ↦
            ap (λ (t : ℕ). bit t (own_line j)) (mask-rewritten f line j k small)
            ∙ ground (arith, ap (λ (t : ℕ). mask t k.bus) same)
        | no ne ↦
            ap (λ (t : ℕ). bit t (own_line j)) (mask-rewritten f line j k small) ∙ ground arith
      ]

  -- Where the data ports hold the masks of the controllers, `setMaskIRQ` of a line below 16 masks
  -- that line and changes no other.
  pub set_mask_irq_lem :
      (line j : ℕ) (k : Kernel S)
      → line < 16
      → j < 16
      → masked j (set_mask_irq line k).1 ≡ (if line == j then 1 else masked j k)
  set_mask_irq_lem line j k hl hj =
      ap (λ (s : S). bit (mask (data_port j) s) (own_line j)) (bus-set_mask_irq line k)
      ∙ masked-rewritten (set_in line) 1 line j k (λ x. mod-lt _ (omega arith))
          (set_value (mask (data_port line) k.bus) (own_line line) (own_line j) (laws.fits _ _)
            (ground arith) (ground arith))
          hl hj

  -- Where the data ports hold the masks of the controllers, `clearMaskIRQ` of a line below 16
  -- unmasks that line and changes no other.
  pub clear_mask_irq_lem :
      (line j : ℕ) (k : Kernel S)
      → line < 16
      → j < 16
      → masked j (clear_mask_irq line k).1 ≡ (if line == j then 0 else masked j k)
  clear_mask_irq_lem line j k hl hj =
      ap (λ (s : S). bit (mask (data_port j) s) (own_line j)) (bus-clear_mask_irq line k)
      ∙ masked-rewritten (clear_in line) 0 line j k (λ x. mod-lt _ (omega arith))
          (clear_value (mask (data_port line) k.bus) (own_line line) (own_line j) (laws.fits _ _)
            (ground arith) (ground arith))
          hl hj

  disable_from_lem :
      (left i j : ℕ) (k : Kernel S)
      → i + left ≡ 16
      → j < 16
      → masked j (disable_from left i k).1 ≡ (if ltb j i then masked j k else 1)
  unfolding disable_from
  disable_from_lem zero i j k e h = ground arith
  disable_from_lem (suc left) i j k e h =
      disable_from_lem left (i + 1) j (set_mask_irq i k).1 (omega arith) h
      ∙ ground (arith, set_mask_irq_lem i j k)

  enable_from_lem :
      (left i j : ℕ) (k : Kernel S)
      → i + left ≡ 16
      → j < 16
      → masked j (enable_from left i k).1 ≡ (if ltb j i then masked j k else 0)
  unfolding enable_from
  enable_from_lem zero i j k e h = ground arith
  enable_from_lem (suc left) i j k e h =
      enable_from_lem left (i + 1) j (clear_mask_irq i k).1 (omega arith) h
      ∙ ground (arith, clear_mask_irq_lem i j k)

  -- Where the data ports hold the masks of the controllers, `disableAllIRQs` masks each of the
  -- sixteen lines, and `enableAllIRQs` unmasks each.
  pub all_irqs_lem :
      (j : ℕ) (k : Kernel S)
      → j < 16
      → (masked j (disable_all_irqs k).1 ≡ 1) × (masked j (enable_all_irqs k).1 ≡ 0)
  unfolding disable_all_irqs enable_all_irqs
  all_irqs_lem j k h = (
    disable_from_lem 16 0 j k (omega arith) h ∙ ground arith,
    enable_from_lem 16 0 j k (omega arith) h ∙ ground arith,
  )
