-- ===== src/Devices/Ps2/Tests.antt =====
-- A run of `initKeyboard` of kernel/devices/ps2.c on a controller that answers 0.
use maken_os.Base.{◌≡◌, refl, arith, ◌==◌, if◌then◌else◌}
use maken_os.Devices.Pic.Masks.{masked}
use maken_os.Devices.Pic.Device.{pics, laws, start}
use maken_os.Devices.Apic.Device.{keeps}
use maken_os.Devices.Ps2.{init_keyboard}
use maken_os.Devices.Ps2.Masks.{init_keyboard-masked}

init_keyboard-masked_example :
    masked ⦃machine = pics⦄ laws 9 (init_keyboard ⦃machine = pics⦄ start).1
    ≡ (if 1 == 9 then 0 else 1)
init_keyboard-masked_example =
    init_keyboard-masked ⦃machine = pics⦄ laws keeps (λ port j s lo hi. refl) 9 start (omega arith)
