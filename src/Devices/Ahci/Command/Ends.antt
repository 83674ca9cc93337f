-- ===== src/Devices/Ahci/Command/Ends.antt =====
-- `runCommand` of kernel/devices/ahci.c as a whole: it returns, and what it has written.
use mathlib.Core.Path.{subst}
use maken_os.Base.First.{First}
use maken_os.Devices.Ahci.Slots.{IsFreeSlot, free_slot-First}
use maken_os.Devices.Ahci.Table.Prepared.{IsRequest, Prepared, prepare-Prepared}
use maken_os.Base.{
  ◌≤◌, sym, arith, ◌∷◌, read_le, ℕ, ◌+◌, ◌*◌, ◌%◌, ◌^◌, ◌<◌, Option, none, ◌≡◌, refl, inl, inr,
  Bool-cases, Bool, true, false, some, Memory,
}
use maken_os.Sys.{Kernel, write32}
use maken_os.Sys.Trace.{Event, read_mmio, write_mmio, History, tracing}
use maken_os.Devices.Ahci.{port_ci, port_sact, free_slot, report_slot, find_cmd_slot}
use maken_os.Devices.Ahci.Table.{Request, cmd_header_size, prepare}
use maken_os.Devices.Ahci.Command.{
  spin_from, port_clb, port_is, issue, run_in_slot, run_command, ahci_read, ahci_write,
}
use maken_os.Devices.Ahci.Command.Laws.{polls, done_at, wait_from-Ended}

-- The controller clears the bit of a command within `bound` polls, whatever has happened before.
abbrev pub IsResponsive : (History → Event → ℕ) → ℕ → ℕ → Type 0
IsResponsive answer port bound =
    (slot : ℕ) (h : History)
    → (rounds : ℕ) × (rounds < bound) × (done_at answer port slot (polls rounds port h) ≡ true)

-- The history when `runCommand` has looked for a slot, and the answers that it got: the two registers
-- of the slots, and behind them the address of the command list.
module _ (answer : History → Event → ℕ) (port : ℕ) (k : Kernel History) where
  abbrev pub asked : History
  asked = write_mmio (port + port_is) 0xffffffff ∷ k.bus

  abbrev pub sact : ℕ
  sact = answer asked (read_mmio (port + port_sact))

  abbrev pub ci : ℕ
  ci = answer (read_mmio (port + port_sact) ∷ asked) (read_mmio (port + port_ci))

  abbrev pub clb : ℕ
  clb =
      answer (read_mmio (port + port_ci) ∷ read_mmio (port + port_sact) ∷ asked)
        (read_mmio (port + port_clb))

  -- What it has written: nothing, where no slot is free, or the command in the lowest free one of the 32.
  pub data Wrote (q : Request) (m : Memory) : Memory → Type 0 where
    no_slot : First (IsFreeSlot sact ci) 32 0 none → Wrote q m m
    in_slot :
        {slot : ℕ} {m' : Memory}
        → First (IsFreeSlot sact ci) 32 0 (some slot)
        → Prepared
            (clb + cmd_header_size * slot)
            (read_le 4 m (clb + cmd_header_size * slot + 8))
            q
            m
            m'
        → Wrote q m m'

abbrev pub read_request : ℕ → ℕ → ℕ → ℕ → Request
read_request start_l start_h count buf = record {
  kind = 0x25;
  write = 0;
  start_l = start_l;
  start_h = start_h;
  count = count;
  buf = buf;
}

abbrev pub write_request : ℕ → ℕ → ℕ → ℕ → Request
write_request start_l start_h count buf = record (read_request start_l start_h count buf) {
  kind = 0x35;
  write = 1;
}

module _ (answer : History → Event → ℕ) (port bound : ℕ)
    (responsive : IsResponsive answer port bound) where
  issue-ends :
      (spins slot : ℕ) (k : Kernel History)
      → (r : Bool × Kernel History) × (issue ⦃machine = tracing answer⦄ bound spins port slot k
          ≡ some r)
  unfolding issue
  issue-ends spins slot k =
      let spun = spin_from ⦃machine = tracing answer⦄ spins port k in
      elim (Bool-cases spun.0) [
        | inl hung ↦ rw hung (_, refl)
        | inr free ↦
            let k1 =
              (write32 ⦃machine = tracing answer⦄ (port + port_ci) (2 ^ slot % 2 ^ 32) spun.1).1 in
            let (rounds, few, done) = responsive slot k1.bus in
            let ended = wait_from-Ended answer port slot bound rounds k1 few done in
            rw free (ended.0, ended.1)
      ]

  -- From the slot that was found on.
  run_command-in_slot :
      (q : Request) (m : Memory) (k : Kernel History) (found : Option ℕ)
      → IsRequest q
      → found ≡ free_slot (sact answer port k) (ci answer port k) 32
      → (ok : Bool) × (k' : Kernel History) × (m' : Memory) × (run_command
            ⦃machine = tracing answer⦄ bound port q k m
          ≡ some (ok, k', m'))
        × Wrote answer port k q m m'
  unfolding run_command run_in_slot find_cmd_slot report_slot
  run_command-in_slot q m k none request same =
      let first = free_slot-First (sact answer port k) (ci answer port k) 32 in
      (
        false,
        (find_cmd_slot ⦃machine = tracing answer⦄ port 32
            (record k { bus = asked answer port k })).1,
        m,
        rw (sym same) refl,
        no_slot (subst (First _ 32 0) (sym same) first),
      )
  run_command-in_slot q m k (some slot) request same =
      let first = free_slot-First (sact answer port k) (ci answer port k) 32 in
      let looked : History =
        read_mmio (port + port_ci) ∷ read_mmio (port + port_sact) ∷ asked answer port k in
      let issued =
        issue-ends 1000000 slot (record k { bus = read_mmio (port + port_clb) ∷ looked }) in
      (
        issued.0.0,
        issued.0.1,
        prepare (clb answer port k + cmd_header_size * slot) q m,
        rw (sym same, issued.1) refl,
        in_slot (subst (First _ 32 0) (sym same) first)
            (prepare-Prepared (clb answer port k + cmd_header_size * slot) q m request),
      )

  -- On a controller that clears the bit of a command within a number of polls, which is the fuel,
  -- `ahci_read` and `ahci_write` of 1 to 16 * 65535 sectors, with a buffer that ends at 2^32 at most, return,
  -- whether the command fails or not, and have written nothing to memory or the command in the lowest
  -- free slot.
  pub ahci-Wrote :
      (start_l start_h count buf : ℕ) (k : Kernel History) (m : Memory)
      → 0 < count
      → count ≤ 16 * 65535
      → buf + 512 * count ≤ 2 ^ 32
      → start_l < 2 ^ 32
      → ((ok : Bool) × (k' : Kernel History) × (m' : Memory) × (ahci_read ⦃machine = tracing answer⦄
              bound port start_l start_h count buf k m
            ≡ some (ok, k', m'))
          × Wrote answer port k (read_request start_l start_h count buf) m m')
        × ((ok : Bool) × (k' : Kernel History) × (m' : Memory) × (ahci_write
                ⦃machine = tracing answer⦄ bound port start_l start_h count buf k m
              ≡ some (ok, k', m'))
            × Wrote answer port k (write_request start_l start_h count buf) m m')
  unfolding ahci_read ahci_write
  ahci-Wrote start_l start_h count buf k m some_sectors fits below start = (
    run_command-in_slot _ m k _
        (record {
          some_sectors = some_sectors;
          fits = fits;
          below = below;
          kind = omega arith;
          start = start;
        })
        refl,
    run_command-in_slot _ m k _
        (record {
          some_sectors = some_sectors;
          fits = fits;
          below = below;
          kind = omega arith;
          start = start;
        })
        refl,
  )
