-- ===== src/Devices/Serial/Tests.antt =====
-- Runs of the string functions of kernel/devices/serial.c.
use maken_os.Base.{ℕ, ◌+◌, ◌≡◌, refl, arith, some, [], ◌∷◌, Memory, ◌==◌, if◌then◌else◌}
use maken_os.Klib.Print.{bytes_at}
use maken_os.Klib.Str.Laws.{IsString}
use maken_os.Sys.{Kernel, inb}
use maken_os.Sys.Trace.{Event, read8, History, tracing, booted}
use maken_os.Devices.Serial.{
  com1, is_serial_received, read_serial, read_serial_string, write_serial_string,
}
use maken_os.Devices.Serial.Laws.{sent, IsReady, write_serial_string-sent}
use maken_os.Devices.Serial.Receive.{Spaced, AreChars, Delivers, read_serial_string-Spaced}

abbrev idle : History → Event → ℕ
idle h e = 0x60

idle-IsReady : IsReady idle
idle-IsReady h = refl

-- "OK" at 0x100.
abbrev ok_text : Memory
ok_text a = if a == 0x100 then 79 else if a == 0x101 then 75 else 0

ok_text-IsString : IsString ok_text 0x100 2
ok_text-IsString = record { ends = refl; inside = λ j below. ground arith }

write_serial_string-sent_example :
    write_serial_string ⦃machine = tracing idle⦄ 3 1 0x100 ok_text booted
    ≡ some (record booted { bus = sent (bytes_at 2 0x100 ok_text) booted.bus })
write_serial_string-sent_example =
    write_serial_string-sent idle idle-IsReady 3 0 2 0x100 ok_text booted ok_text-IsString
      (omega arith)

-- A port that answers every read with 79, which has bit 0 set.
abbrev letters : History → Event → ℕ
letters h e = 79

abbrev blank : Memory
blank a = 0

abbrev heard : Kernel History
heard = record booted { bus = read8 com1 ∷ read8 (com1 + 5) ∷ read8 com1 ∷ read8 (com1 + 5) ∷ [] }

heard-Delivers : Delivers ⦃machine = tracing letters⦄ 1 (79 ∷ 79 ∷ []) booted heard
unfolding Delivers read_serial is_serial_received inb
heard-Delivers = (_, refl, (_, refl, refl))

letters-AreChars : AreChars (79 ∷ 79 ∷ [])
unfolding AreChars
letters-AreChars = (omega arith, omega arith, (omega arith, omega arith, tt))

read_serial_string-Spaced_example :
    (m' : Memory) × (read_serial_string ⦃machine = tracing letters⦄ 1 0x100 3 blank booted
      ≡ some (m', heard))
    × Spaced 0x100 (79 ∷ 79 ∷ []) blank m'
read_serial_string-Spaced_example =
    read_serial_string-Spaced ⦃machine = tracing letters⦄ 1 0x100 3 (79 ∷ 79 ∷ []) blank booted
      heard letters-AreChars heard-Delivers (omega arith)
