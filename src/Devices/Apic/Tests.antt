-- ===== src/Devices/Apic/Tests.antt =====
-- Runs of kernel/devices/apic.c.
use maken_os.Base.{ℕ, ◌<◌, ◌≡◌, arith, some, ◌==◌, if◌then◌else◌}
use maken_os.Sys.{Kernel}
use maken_os.Sys.Trace.{Event, History}
use maken_os.Devices.Pic.Masks.{masked}
use maken_os.Devices.Pic.Device.{Pics, pics, laws, start}
use maken_os.Devices.Apic.{enable_apic, enable_apic_timer}
use maken_os.Devices.Apic.Device.{keeps}
use maken_os.Devices.Apic.Masks.{enable_apic_timer-masked}

abbrev silent : History → Event → ℕ
silent h e = 0

enable_apic_timer-masked_example :
    (k' : Kernel Pics) × (enable_apic_timer ⦃machine = pics⦄ 1 10
        (enable_apic ⦃machine = pics⦄ start).1
      ≡ some k')
    × ((j : ℕ) → j < 16 → masked ⦃machine = pics⦄ laws j (enable_apic ⦃machine = pics⦄ start).1 ≡ 1)
    × ((j : ℕ) → j < 16 → masked ⦃machine = pics⦄ laws j k' ≡ (if 0 == j then 0 else 1))
enable_apic_timer-masked_example =
    enable_apic_timer-masked ⦃machine = pics⦄ laws keeps 1 10 start (omega arith) (omega arith)
      (omega arith)
