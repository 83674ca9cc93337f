-- ===== src/Devices/Pit/Laws.antt =====
-- The divisor that `initPIT` of kernel/devices/pit.c sends, and how long `PIT_sleep` sleeps.
use maken_os.Base.{
  ℕ, zero, suc, ◌+◌, ◌*◌, ◌/◌, ◌%◌, ◌^◌, ◌<◌, ◌≡◌, refl, ◌∙◌, ap, arith, some, lt→ltb, le→ltb,
  bit_and, bit_and_mask, ◌>>>◌, ◌∷◌,
}
use maken_os.Sys.{Machine, Kernel, outb, halt}
use maken_os.Sys.Trace.{Event, write8, History, tracing}
use maken_os.Devices.Pit.{send_divisor, sleep_from, pit_sleep}

-- The two bytes that follow the command on the timer's port are the low sixteen bits of the
-- divisor, the low byte first.
send_divisor-bytes :
    (answer : History → Event → ℕ) (k : Kernel History) (divisor : ℕ)
    → (low high : ℕ) × ((send_divisor ⦃machine = tracing answer⦄ divisor k).1.bus
        ≡ write8 0x40 high ∷ write8 0x40 low ∷ write8 0x43 0x36 ∷ k.bus)
      × (low + 256 * high ≡ divisor % 2 ^ 16)
unfolding send_divisor outb
send_divisor-bytes answer k divisor = (
  bit_and divisor 0xff % 2 ^ 8 % 2 ^ 8,
  bit_and (divisor >>> 8) 0xff % 2 ^ 8 % 2 ^ 8,
  refl,
  omega (arith, bit_and_mask 8 divisor, bit_and_mask 8 (divisor >>> 8)),
)

module _ {S : Type 0} ⦃machine : Machine S⦄ where
  -- The machine after a number of `hlt`s.
  unfoldable pub halts : ℕ → Kernel S → Kernel S
  halts zero k = k
  halts (suc n) k = halts n (halt k).1

  sleep_from-halts :
      (n fuel ticks bound : ℕ) (k : Kernel S)
      → ticks + n ≡ bound
      → bound < 2 ^ 32
      → n < fuel
      → sleep_from fuel ticks bound k ≡ some (bound, halts n k)
  unfolding sleep_from halts
  sleep_from-halts n zero ticks bound k e small enough = absurd (omega arith)
  sleep_from-halts zero (suc fuel) ticks bound k e small enough =
      let there : ticks ≡ bound = omega arith in
      rw (le→ltb ticks bound (omega arith)) (ap (λ (t : ℕ). some (t, k)) there)
  sleep_from-halts (suc n) (suc fuel) ticks bound k e small enough =
      let next : (ticks + 1) % 2 ^ 32 ≡ ticks + 1 = omega arith in
      rw (lt→ltb ticks bound (omega arith)) (
        ap (λ (t : ℕ). sleep_from fuel t bound (halt k).1) next
        ∙ sleep_from-halts n fuel (ticks + 1) bound (halt k).1 (omega arith) small (omega arith))

  -- Where the number of ticks fits in 32 bits and the fuel exceeds it, `PIT_sleep` returns after
  -- that many `hlt`s: the frequency by 1000, rounded down, times the milliseconds. Below 1000 Hz
  -- it does not sleep.
  pub pit_sleep-halts :
      (fuel milliseconds : ℕ) (k : Kernel S)
      → k.frequency / 1000 * milliseconds < 2 ^ 32
      → k.frequency / 1000 * milliseconds < fuel
      → (pit_sleep fuel milliseconds k
          ≡ some (k.frequency / 1000 * milliseconds, halts (k.frequency / 1000 * milliseconds) k))
        × (k.frequency < 1000 → pit_sleep fuel milliseconds k ≡ some (0, k))
  unfolding pit_sleep halts
  pit_sleep-halts fuel milliseconds k small enough = (sleeps, at_low)
    where
      ticks : ℕ
      ticks = k.frequency / 1000 * milliseconds

      sleeps : pit_sleep fuel milliseconds k ≡ some (ticks, halts ticks k)
      sleeps =
          let wrap : ticks % 2 ^ 64 ≡ ticks = omega arith in
          ap (λ (t : ℕ). sleep_from fuel 0 t k) wrap
          ∙ sleep_from-halts ticks fuel 0 ticks k (omega arith) small enough

      at_low : k.frequency < 1000 → pit_sleep fuel milliseconds k ≡ some (0, k)
      at_low low =
          let each : k.frequency / 1000 ≡ 0 = omega arith in
          let none_left : ticks ≡ 0 = ap (λ (t : ℕ). t * milliseconds) each ∙ omega arith in
          sleeps ∙ ap (λ (t : ℕ). some (t, halts t k)) none_left
