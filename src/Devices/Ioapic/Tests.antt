-- ===== src/Devices/Ioapic/Tests.antt =====
-- The key "a" on kernel/devices/ioapic.c with shift held down.
use maken_os.Base.{◌<◌, ◌≤◌, ◌≡◌, ◌⊎◌, refl, true, false, if◌then◌else◌}
use maken_os.Devices.Ioapic.{
  Modifiers, nothing, key, press, shown, xor, set1_scancodes, shift_set1_scancodes,
}
use maken_os.Devices.Ioapic.Keyboard.{Shows, is_modifier, press-Shows}

abbrev shifted : Modifiers
shifted = record { shift = true; caps_lock = false; ctrl = false }

upper_a : press shifted 0x1e ≡ (shifted, false, key "A")
unfolding press shown shift_set1_scancodes
upper_a = refl

press-Shows_example :
    (0x1e < 0x58
      → is_modifier 0x1e ≡ false
      → ((press shifted 0x1e).0 ≡ shifted)
        × ((press shifted 0x1e).1 ≡ false)
        × Shows
            (if xor true false then shift_set1_scancodes else set1_scancodes)
            0x1e
            (press shifted 0x1e).2)
    × ((0x58 ≤ 0x1e) ⊎ (is_modifier 0x1e ≡ true)
        → ((press shifted 0x1e).1 ≡ false) × ((press shifted 0x1e).2 ≡ nothing))
press-Shows_example = press-Shows shifted 0x1e
