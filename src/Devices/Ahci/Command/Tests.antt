-- ===== src/Devices/Ahci/Command/Tests.antt =====
-- A command of kernel/devices/ahci.c on a controller that is busy at the first look.
use maken_os.Base.{ℕ, ◌≡◌, refl, arith, Bool, some, [], ◌∷◌}
use maken_os.Sys.{Kernel}
use maken_os.Sys.Trace.{Event, History, tracing, booted}
use maken_os.Devices.Ahci.Command.{wait_from}
use maken_os.Devices.Ahci.Command.Laws.{Ended, polls, wait_from-Ended}

abbrev answer : History → Event → ℕ
answer [] e = 4
answer (past ∷ h) e = 0

wait_from-Ended_example :
    (r : Bool × Kernel History) × (wait_from ⦃machine = tracing answer⦄ 5 0x1000 2 booted ≡ some r)
    × Ended answer 0x1000 2 [] r.0 r.1.bus
unfolding polls
wait_from-Ended_example = wait_from-Ended answer 0x1000 2 5 1 booted (omega arith) refl
