-- ===== src/Devices/Ahci/Table/Tests.antt =====
-- A read of 40 sectors as kernel/devices/ahci.c writes it into a command table.
use maken_os.Base.{◌+◌, ◌*◌, ◌-◌, ◌%◌, ◌^◌, ◌≡◌, arith, min, Memory}
use maken_os.Devices.Ahci.Table.{Request, entry_address, prdtl_of, write_table}
use maken_os.Devices.Ahci.Table.Laws.{Names, entries_of, write_table-Names, write_table-command}

abbrev request : Request
request = record {
  kind = 0x25;
  write = 0;
  start_l = 0x12345678;
  start_h = 9;
  count = 40;
  buf = 0x200000;
}

abbrev empty : Memory
empty a = 0

write_table-Names_example :
    Names
      (entry_address 0x4000 2)
      (0x200000 + 8192 * 2)
      (min 8192 (512 * 40 - 8192 * 2))
      (write_table 0x4000 (prdtl_of 40) request empty)
write_table-Names_example =
    write_table-Names 0x4000 request empty 2 (omega arith) (omega arith) (omega arith) (omega arith)

write_table-command_example :
    let m' = write_table 0x4000 (prdtl_of 40) request empty in
    (m' 0x4000 ≡ 0x27)
    × (m' (0x4000 + 2) ≡ 0x25)
    × (m' (0x4000 + 4)
          + m' (0x4000 + 5) * 2 ^ 8
          + m' (0x4000 + 6) * 2 ^ 16
          + m' (0x4000 + 8) * 2 ^ 24
        ≡ 0x12345678)
    × (m' (0x4000 + 9) + m' (0x4000 + 10) * 2 ^ 8 ≡ 9 % 2 ^ 16)
    × (m' (0x4000 + 12) + m' (0x4000 + 13) * 2 ^ 8 ≡ 40 - 16 * (entries_of 40 - 1))
write_table-command_example =
    write_table-command 0x4000 request empty (omega arith) (omega arith) (omega arith) (omega arith)
