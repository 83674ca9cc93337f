-- ===== src/Devices/Ahci/Command/Laws.antt =====
-- How a command of kernel/devices/ahci.c ends.
use maken_os.Base.{
  ℕ, zero, suc, ◌+◌, ◌<◌, ◌≡◌, refl, arith, inl, inr, Bool-cases, Bool, true, false, some, ◌==◌,
  bit_and, ◌^◌, ◌∷◌,
}
use maken_os.Sys.{Kernel}
use maken_os.Sys.Trace.{Event, read_mmio, text, History, tracing}
use maken_os.Devices.Ahci.{port_ci}
use maken_os.Devices.Ahci.Command.{port_is, task_file_error, fail, final_check, wait_from}

-- What the controller answers after a history.
abbrev pub ci_of : (History → Event → ℕ) → ℕ → History → ℕ
ci_of answer port h = answer h (read_mmio (port + port_ci))

abbrev pub is_of : (History → Event → ℕ) → ℕ → History → ℕ
is_of answer port h = answer h (read_mmio (port + port_is))

-- The slot's bit is clear; the task file has an error.
abbrev pub done_at : (History → Event → ℕ) → ℕ → ℕ → History → Bool
done_at answer port slot h = bit_and (ci_of answer port h) (2 ^ slot) == 0

abbrev pub sound_at : (History → Event → ℕ) → ℕ → History → Bool
sound_at answer port h = bit_and (is_of answer port h) task_file_error == 0

-- The polls of the loop: one look at `ci` and one at `is`.
abbrev pub polled : ℕ → History → History
polled port h = read_mmio (port + port_is) ∷ read_mmio (port + port_ci) ∷ h

unfoldable pub polls : ℕ → ℕ → History → History
polls zero port h = h
polls (suc rounds) port h = polls rounds port (polled port h)

module _ (answer : History → Event → ℕ) (port slot : ℕ) where
  -- The waiting that starts after a history: rounds in which the bit was set and no error was
  -- found, and at the end either the bit clear and no error in the look behind the loop, or an
  -- error in the look at `is`, which is reported.
  pub data Ended : History → Bool → History → Type 0 where
    succeeded :
        {h : History}
        → done_at answer port slot h ≡ true
        → sound_at answer port (read_mmio (port + port_ci) ∷ h) ≡ true
        → Ended h true (polled port h)
    failed :
        {h : History}
        → sound_at answer port (read_mmio (port + port_ci) ∷ h) ≡ false
        → Ended h false (text "Read disk error\n" 16 ∷ polled port h)
    waited :
        {h : History} {r : Bool} {h' : History}
        → done_at answer port slot h ≡ false
        → sound_at answer port (read_mmio (port + port_ci) ∷ h) ≡ true
        → Ended (polled port h) r h'
        → Ended h r h'

  final_check-Ended :
      (k : Kernel History)
      → done_at answer port slot k.bus ≡ true
      → let r =
          final_check ⦃machine = tracing answer⦄ port
            (record k { bus = read_mmio (port + port_ci) ∷ k.bus }) in
        Ended k.bus r.0 r.1.bus
  unfolding final_check fail
  final_check-Ended k d =
      elim (Bool-cases (sound_at answer port (read_mmio (port + port_ci) ∷ k.bus))) [
        | inl s ↦ rw s (succeeded d s)
        | inr s ↦ rw s (failed s)
      ]

  -- A wait with more rounds of fuel than the controller takes to clear the slot's bit returns, and
  -- it returns the outcome of the polls.
  pub wait_from-Ended :
      (fuel rounds : ℕ) (k : Kernel History)
      → rounds < fuel
      → done_at answer port slot (polls rounds port k.bus) ≡ true
      → (r : Bool × Kernel History) × (wait_from ⦃machine = tracing answer⦄ fuel port slot k
          ≡ some r)
        × Ended k.bus r.0 r.1.bus
  unfolding wait_from fail polls
  wait_from-Ended zero rounds k l d = absurd (omega arith)
  wait_from-Ended (suc fuel) zero k l d = rw d (_, refl, final_check-Ended k d)
  wait_from-Ended (suc fuel) (suc rounds) k l d =
      elim (Bool-cases (done_at answer port slot k.bus)) [
        | inl now ↦ rw now (_, refl, final_check-Ended k now)
        | inr later ↦
            elim (Bool-cases (sound_at answer port (read_mmio (port + port_ci) ∷ k.bus))) [
              | inl s ↦
                  let rest =
                    wait_from-Ended fuel rounds (record k { bus = polled port k.bus })
                      (omega (arith, l)) d in
                  rw (later, s) (rest.0, rest.1, waited later s rest.2)
              | inr s ↦ rw (later, s) (_, refl, failed s)
            ]
      ]
