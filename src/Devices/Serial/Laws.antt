-- ===== src/Devices/Serial/Laws.antt =====
-- Sending a string on the serial port: kernel/devices/serial.c.
use maken_os.Base.{
  ℕ, zero, suc, ◌≤◌, ◌<◌, ◌≢◌, ◌∙◌, ap, arith, Memory, ◌+◌, ◌%◌, ◌^◌, ◌≡◌, refl, true, some, ◌!=◌,
  bit_and, List, [], ◌∷◌,
}
use maken_os.Sys.{Kernel, inb, outb}
use maken_os.Sys.Trace.{Event, read8, write8, History, tracing}
use maken_os.Devices.Serial.{
  com1, is_transmit_empty, write_serial, write_serial_string, write_string_from,
}
use maken_os.Klib.Print.{bytes_at}
use maken_os.Klib.Str.Laws.{IsString}

-- The accesses that send a string: a look at the line status before each character.
unfoldable pub sent : List ℕ → History → History
sent [] h = h
sent (c ∷ str) h = sent str (write8 com1 (c % 2 ^ 8) ∷ read8 (com1 + 5) ∷ h)

-- Bit 5 of every answer is set.
abbrev pub IsReady : (History → Event → ℕ) → Type 0
IsReady answer = (h : History) → (bit_and (answer h (read8 (com1 + 5))) 0x20 != 0) ≡ true

module _ (answer : History → Event → ℕ) (ready : IsReady answer) where
  write_serial-ready :
      (fuel a : ℕ) (k : Kernel History)
      → write_serial ⦃machine = tracing answer⦄ (suc fuel) a k
        ≡ some (record k { bus = write8 com1 (a % 2 ^ 8) ∷ read8 (com1 + 5) ∷ k.bus })
  unfolding write_serial is_transmit_empty inb outb
  write_serial-ready fuel a k = rw (ready k.bus) refl

  write_string_from-sent :
      (left fuel i n str : ℕ) (m : Memory) (k : Kernel History)
      → ((j : ℕ) → i ≤ j → j < i + n → m (str + j) ≢ 0)
      → m (str + (i + n)) ≡ 0
      → n < left
      → write_string_from ⦃machine = tracing answer⦄ left (suc fuel) i str m k
        ≡ some (record k { bus = sent (bytes_at n (str + i) m) k.bus })
  unfolding write_string_from sent bytes_at
  write_string_from-sent zero fuel i n str m k inside ends enough = absurd (omega arith)
  write_string_from-sent (suc left) fuel i zero str m k inside ends enough =
      let zero_here : m (str + i) ≡ 0 =
        ap (λ (j : ℕ). m (str + j)) {y = i + 0} (omega arith) ∙ ends in
      rw zero_here refl
  write_string_from-sent (suc left) fuel i (suc n) str m k inside ends enough =
      let more : (m (str + i) != 0) ≡ true =
        let here = inside i (omega arith) (omega arith) in ground arith in
      let sent_one : Kernel History = record k {
        bus = write8 com1 (m (str + i) % 2 ^ 8) ∷ read8 (com1 + 5) ∷ k.bus;
      } in
      let rest =
        write_string_from-sent left fuel (i + 1) n str m sent_one
          (λ j lo hi. inside j (omega arith) (omega arith))
          (ap (λ (j : ℕ). m (str + j)) {y = i + suc n} (omega arith) ∙ ends) (omega arith) in
      rw (more, write_serial-ready fuel (m (str + i)) k)
        (rest
          ∙ ap (λ (a : ℕ). some (record k { bus = sent (bytes_at n a m) sent_one.bus }))
              {x = str + (i + 1)} {y = str + i + 1} (omega arith))

  -- While the line status says that the transmitter is empty, `writeSerialString` sends every
  -- character of the string before its terminator, in order, each after one look at the line status,
  -- and returns, with fuel for the characters and one more round.
  pub write_serial_string-sent :
      (left fuel n str : ℕ) (m : Memory) (k : Kernel History)
      → IsString m str n
      → n < left
      → write_serial_string ⦃machine = tracing answer⦄ left (suc fuel) str m k
        ≡ some (record k { bus = sent (bytes_at n str m) k.bus })
  unfolding write_serial_string
  write_serial_string-sent left fuel n str m k string enough =
      write_string_from-sent left fuel 0 n str m k (λ j _ hi. string.inside j (omega arith))
        (ap (λ (j : ℕ). m (str + j)) {x = 0 + n} {y = n} (omega arith) ∙ string.ends) enough
      ∙ ap (λ (a : ℕ). some (record k { bus = sent (bytes_at n a m) k.bus })) {x = str + 0}
          {y = str} (omega arith)
