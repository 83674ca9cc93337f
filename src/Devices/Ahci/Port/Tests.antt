-- ===== src/Devices/Ahci/Port/Tests.antt =====
-- The command list of port 3 in kernel/devices/ahci.c.
use maken_os.Base.{arith, Memory}
use maken_os.Devices.Ahci.Port.{rebase_headers}
use maken_os.Devices.Ahci.Port.Laws.{Rebased, list_at, rebase_headers-Rebased}

abbrev ones : Memory
ones a = 255

rebase_headers-Rebased_example : Rebased 3 0 32 ones (rebase_headers 32 0 (list_at 3) 3 ones)
rebase_headers-Rebased_example = rebase_headers-Rebased 32 0 3 ones (omega arith) (omega arith)
