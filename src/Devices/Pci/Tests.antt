-- ===== src/Devices/Pci/Tests.antt =====
-- A scan of kernel/devices/pci.c over buses where every register is 0.
use maken_os.Base.{ℕ, arith}
use maken_os.Sys.Trace.{Event, write32, History, tracing, booted}
use maken_os.Devices.Pci.{check_all_buses}
use maken_os.Devices.Pci.Scan.{Extends, Has, header_address, check_all_buses-Has}

abbrev silent : History → Event → ℕ
silent h e = 0

check_all_buses-Has_example :
    Has
      (write32 0xcf8 (header_address 7 31))
      (check_all_buses ⦃machine = tracing silent⦄ booted).1.bus
    × Extends booted.bus (check_all_buses ⦃machine = tracing silent⦄ booted).1.bus
check_all_buses-Has_example = check_all_buses-Has silent 7 31 booted (omega arith) (omega arith)
