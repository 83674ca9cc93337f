-- ===== src/Interfaces/Acpi/Tests.antt =====
-- Runs of kernel/interfaces/acpi.c.
use maken_os.Base.{◌+◌, ◌%◌, ◌≡◌, arith, if◌then◌else◌, ◌==◌, ◌||◌, Memory, IsBytes}
use maken_os.Interfaces.Acpi.{validate_rsdp_checksum}
use maken_os.Interfaces.Acpi.Checksum.{sum_bytes, validate_rsdp_checksum-sum_bytes}

-- A table at 0 of 44 bytes, which lists the tables at 200 and 300; the signatures at 300 and 400
-- begin with the same letter.
abbrev firmware : Memory
firmware a =
    if a == 4
    then 44
    else if a == 36
    then 200
    else if a == 40
    then 44
    else if a == 41
    then 1
    else if a == 300 || a == 400
    then 65
    else 0

firmware-IsBytes : IsBytes firmware
firmware-IsBytes a = ground arith

validate_rsdp_checksum-sum_bytes_example :
    validate_rsdp_checksum 30 firmware
    ≡ (if firmware (30 + 15) == 2
        then sum_bytes 28 30 firmware + sum_bytes 4 (30 + 32) firmware
        else sum_bytes 20 30 firmware)
      % 256
validate_rsdp_checksum-sum_bytes_example =
    validate_rsdp_checksum-sum_bytes 30 firmware firmware-IsBytes
