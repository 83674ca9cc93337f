-- ===== src/Devices/Pci/Scan.antt =====
-- What the scan of `checkAllBuses` in kernel/devices/pci.c asks for.
use maken_os.Base.{
  ℕ, zero, suc, ◌+◌, ◌*◌, ◌%◌, ◌^◌, ◌≤◌, ◌<◌, ◌≡◌, refl, ◌∙◌, sym, ap, arith, inl, inr, Bool-cases,
  ◌==◌, if◌then◌else◌, bit_and, [], ◌∷◌, ◌++◌,
}
use mathlib.Core.Path.{subst}
use mathlib.Core.List.{append_assoc}
use native.Mathlib.Decide.{ℕ_discrete}
use maken_os.Sys.{Kernel, pure, ◌>>=◌, in_long, out_long}
use maken_os.Sys.Trace.{Event, read32, write32, History, tracing}
use maken_os.Devices.Pci.{
  pci_config_read_word, get_vendor_id, get_header_type, check_function, check_functions,
  check_device, check_devices, check_buses, check_all_buses,
}
use maken_os.Devices.Pci.Laws.{config_address_fields}

-- The history has grown.
abbrev pub Extends : History → History → Type 0
Extends h h' = (new : History) × (h' ≡ new ++ h)

-- The event is in the history.
abbrev pub Has : Event → History → Type 0
Has e h = (new old : History) × (h ≡ new ++ (e ∷ old))

Extends-refl : (h : History) → Extends h h
Extends-refl h = ([], refl)

Extends-trans : {a b c : History} → Extends a b → Extends b c → Extends a c
Extends-trans {a} {b} {c} (n1, e1) (n2, e2) =
    (n2 ++ n1, e2 ∙ ap (λ (h : History). n2 ++ h) e1 ∙ sym (append_assoc n2 n1 a))

Has-Extends : {e : Event} {h h' : History} → Has e h → Extends h h' → Has e h'
Has-Extends {e} {h} {h'} (n, o, e1) (n2, e2) =
    (n2 ++ n, o, e2 ∙ ap (λ (t : History). n2 ++ t) e1 ∙ sym (append_assoc n2 n (e ∷ o)))

-- The address of the header type of a device: its register 12, function 0.
abbrev pub header_address : ℕ → ℕ → ℕ
header_address bus device = 2 ^ 31 + bus * 2 ^ 16 + device * 2 ^ 11 + 12

module _ (answer : History → Event → ℕ) where
  -- A read of a word.
  read_word-Extends :
      (bus device func offset : ℕ) (k : Kernel History)
      → Extends k.bus
          (pci_config_read_word ⦃machine = tracing answer⦄ bus device func offset k).1.bus
  unfolding pci_config_read_word out_long in_long
  read_word-Extends bus device func offset k = (_ ∷ _ ∷ [], refl)

  check_functions-Extends :
      (left function bus device : ℕ) (k : Kernel History)
      → Extends k.bus (check_functions ⦃machine = tracing answer⦄ left function bus device k).1.bus
  unfolding check_functions get_vendor_id
  check_functions-Extends zero function bus device k = Extends-refl k.bus
  check_functions-Extends (suc left) function bus device k =
      Extends-trans (read_word-Extends bus device function 0 k)
        (check_functions-Extends left (function + 1) bus device _)

  -- The first access of `checkDevice`.
  asked : ℕ → ℕ → Kernel History → Kernel History
  asked bus device k = (check_function ⦃machine = tracing answer⦄ bus device 0 k).1

  asked-Has :
      (bus device : ℕ) (k : Kernel History)
      → bus < 256
      → device < 32
      → Has (write32 0xcf8 (header_address bus device)) (asked bus device k).bus
  unfolding asked check_function get_header_type pci_config_read_word out_long in_long
  asked-Has bus device k hb hd = (
    read32 0xcfc ∷ [],
    k.bus,
    ap (λ (t : ℕ). read32 0xcfc ∷ write32 0xcf8 t ∷ k.bus)
        (omega (
          arith,
          config_address_fields (bus % 256) (device % 256) 0 14 (omega arith) (omega arith),
        )),
  )

  -- What `checkDevice` does for a device that is there.
  abbrev other_functions : ℕ → ℕ → Kernel History → Kernel History
  other_functions bus device k =
      ((do
        header_type ← get_header_type ⦃machine = tracing answer⦄ (bus % 256) (device % 256) 0
        if bit_and header_type 0x80 == 0
            then pure tt
            else check_functions ⦃machine = tracing answer⦄ 7 1 (bus % 256) (device % 256))
        k).1

  other_functions-Extends :
      (bus device : ℕ) (k : Kernel History) → Extends k.bus (other_functions bus device k).bus
  unfolding get_header_type
  other_functions-Extends bus device k =
      let header = get_header_type ⦃machine = tracing answer⦄ (bus % 256) (device % 256) 0 k in
      let read = read_word-Extends (bus % 256) (device % 256) 0 14 k in
      elim (Bool-cases (bit_and header.0 0x80 == 0)) [
        | inl single ↦ rw (other_functions, single) read
        | inr many ↦
            rw (other_functions, many)
              (Extends-trans read (check_functions-Extends 7 1 (bus % 256) (device % 256) header.1))
      ]

  asked-Extends : (bus device : ℕ) (k : Kernel History) → Extends k.bus (asked bus device k).bus
  unfolding asked check_function get_header_type
  asked-Extends bus device k = read_word-Extends _ _ _ _ k

  check_device-Extends :
      (bus device : ℕ) (k : Kernel History)
      → Extends
          (asked bus device k).bus
          (check_device ⦃machine = tracing answer⦄ bus device k).1.bus
  unfolding asked check_device get_header_type
  check_device-Extends bus device k =
      elim (Bool-cases (check_function ⦃machine = tracing answer⦄ bus device 0 k).0) [
        | inl found ↦ rw found (other_functions-Extends bus device (asked bus device k))
        | inr missing ↦ rw missing (Extends-refl (asked bus device k).bus)
      ]

  check_devices-Extends :
      (left device bus : ℕ) (k : Kernel History)
      → Extends k.bus (check_devices ⦃machine = tracing answer⦄ left device bus k).1.bus
  unfolding check_devices
  check_devices-Extends zero device bus k = Extends-refl k.bus
  check_devices-Extends (suc left) device bus k = Extends-trans (asked-Extends bus device k) (
      Extends-trans (check_device-Extends bus device k)
        (check_devices-Extends left (device + 1) bus _))

  check_devices-Has :
      (left first bus device : ℕ) (k : Kernel History)
      → bus < 256
      → device < 32
      → first ≤ device
      → device < first + left
      → Has
          (write32 0xcf8 (header_address bus device))
          (check_devices ⦃machine = tracing answer⦄ left first bus k).1.bus
  unfolding check_devices
  check_devices-Has zero first bus device k hb hd lo hi = absurd (omega arith)
  check_devices-Has (suc left) first bus device k hb hd lo hi =
      let k1 = (check_device ⦃machine = tracing answer⦄ bus first k).1 in
      elim (ℕ_discrete first device) [
        | yes here ↦
            Has-Extends
              (Has-Extends
                (subst
                  (λ (d : ℕ). Has (write32 0xcf8 (header_address bus d)) (asked bus first k).bus)
                  here (asked-Has bus first k hb (omega arith)))
                (check_device-Extends bus first k))
              (check_devices-Extends left (first + 1) bus k1)
        | no further ↦
            check_devices-Has left (first + 1) bus device k1 hb hd (omega arith) (omega arith)
      ]

  check_buses-Extends :
      (left bus : ℕ) (k : Kernel History)
      → Extends k.bus (check_buses ⦃machine = tracing answer⦄ left bus k).1.bus
  unfolding check_buses
  check_buses-Extends zero bus k = Extends-refl k.bus
  check_buses-Extends (suc left) bus k =
      Extends-trans (check_devices-Extends 32 0 bus k) (check_buses-Extends left (bus + 1) _)

  check_buses-Has :
      (left first bus device : ℕ) (k : Kernel History)
      → bus < 256
      → device < 32
      → first ≤ bus
      → bus < first + left
      → Has
          (write32 0xcf8 (header_address bus device))
          (check_buses ⦃machine = tracing answer⦄ left first k).1.bus
  unfolding check_buses
  check_buses-Has zero first bus device k hb hd lo hi = absurd (omega arith)
  check_buses-Has (suc left) first bus device k hb hd lo hi =
      let k1 = (check_devices ⦃machine = tracing answer⦄ 32 0 first k).1 in
      elim (ℕ_discrete first bus) [
        | yes here ↦
            Has-Extends
              (subst (λ (b : ℕ). Has (write32 0xcf8 (header_address b device)) k1.bus) here
                (check_devices-Has 32 0 first device k (omega arith) hd (omega arith)
                  (omega arith)))
              (check_buses-Extends left (first + 1) k1)
        | no further ↦
            check_buses-Has left (first + 1) bus device k1 hb hd (omega arith) (omega arith)
      ]

  -- Whatever the devices answer, `checkAllBuses` asks each of the 32 devices of each of the 256 buses for
  -- its header type, at the address that has the bus and the device in their fields, and keeps the
  -- history of what was accessed before.
  pub check_all_buses-Has :
      (bus device : ℕ) (k : Kernel History)
      → bus < 256
      → device < 32
      → Has
          (write32 0xcf8 (header_address bus device))
          (check_all_buses ⦃machine = tracing answer⦄ k).1.bus
        × Extends k.bus (check_all_buses ⦃machine = tracing answer⦄ k).1.bus
  unfolding check_all_buses
  check_all_buses-Has bus device k hb hd = (
    check_buses-Has 256 0 bus device k hb hd (omega arith) (omega arith),
    check_buses-Extends 256 0 k,
  )
