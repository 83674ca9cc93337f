-- ===== src/Devices/Ahci/Table.antt =====
-- kernel/devices/ahci.c and ahci.h: what `runCommand` writes into the command header and the command
-- table of its slot, as byte memory. The structures are read at the offsets of their members; a
-- bit-field keeps the other bits of its word.
pub mod Entries
pub mod Laws
pub mod Prepared
mod Tests
use maken_os.Base.{
  ℕ, zero, suc, ◌+◌, ◌-◌, ◌*◌, ◌/◌, ◌%◌, ◌^◌, bit_and, ◌<<<◌, ◌>>>◌, Memory, store, read_le,
  write_le,
}
use maken_os.Klib.Mem.{memset}

-- `sizeof(HBA_CMD_HEADER)`, `sizeof(HBA_PRDT_ENTRY)` and `sizeof(HBA_CMD_TBL)`.
abbrev pub cmd_header_size : ℕ
cmd_header_size = 32

abbrev pub prdt_entry_size : ℕ
prdt_entry_size = 16

abbrev pub cmd_table_size : ℕ
cmd_table_size = 0x80 + prdt_entry_size

-- What `runCommand` is asked for.
pub record Request : Type 0 where
  pub kind : ℕ
  pub write : ℕ
  pub start_l : ℕ
  pub start_h : ℕ
  pub count : ℕ
  pub buf : ℕ

-- `(uint16_t) ((count - 1) >> 4) + 1`, cut to 16 bits by `prdtl`.
abbrev pub prdtl_of : ℕ → ℕ
prdtl_of count = ((((count + 2 ^ 32 - 1) % 2 ^ 32) >>> 4) % 2 ^ 16 + 1) % 2 ^ 16

-- `cfl` is the low five bits of the first byte and `w` its bit 6; `prdtl` stands at 2.
unfoldable pub write_header : ℕ → Request → Memory → Memory
write_header header q m =
    let old = m header in
    let first = 5 + old / 2 ^ 5 % 2 * 2 ^ 5 + q.write % 2 * 2 ^ 6 + old / 2 ^ 7 * 2 ^ 7 in
    write_le 2 (store m header first) (header + 2) (prdtl_of q.count)

-- `cmd_tbl->prdt_entry[i]`
abbrev pub entry_address : ℕ → ℕ → ℕ
entry_address table i = table + 0x80 + prdt_entry_size * i

-- `dba` at 0; `dbc`, 22 bits, nine reserved bits and `i` at 12.
unfoldable pub write_entry : ℕ → ℕ → ℕ → Memory → Memory
write_entry entry buf dbc m =
    let m1 = write_le 4 m entry (buf % 2 ^ 32) in
    let old = read_le 4 m1 (entry + 12) in
    write_le 4 m1 (entry + 12) (dbc % 2 ^ 22 + old / 2 ^ 22 % 2 ^ 9 * 2 ^ 22 + 2 ^ 31)

-- The loop over all entries but the last, from index `i` on: what is left of the count, the rest of
-- the buffer, and the memory. The number of its rounds is read once: the header does not lie in the
-- table.
unfoldable pub write_entries : ℕ → ℕ → ℕ → ℕ → ℕ → Memory → ℕ × ℕ × Memory
write_entries zero i table count buf m = (count, buf, m)
write_entries (suc left) i table count buf m =
    write_entries left (i + 1) table ((count + 2 ^ 32 - 16) % 2 ^ 32) ((buf + 8192) % 2 ^ 64)
      (write_entry (entry_address table i) buf (8 * 1024 - 1) m)

-- `FIS_REG_H2D`; `c` is the highest bit of the second byte.
unfoldable pub write_fis : ℕ → Request → ℕ → Memory → Memory
write_fis fis q count m =
    let m1 = store m fis 0x27 in
    let m2 = store m1 (fis + 1) (m1 (fis + 1) % 2 ^ 7 + 2 ^ 7) in
    let m3 = store m2 (fis + 2) q.kind in
    let m4 = store m3 (fis + 4) q.start_l in
    let m5 = store m4 (fis + 5) (q.start_l >>> 8) in
    let m6 = store m5 (fis + 6) (q.start_l >>> 16) in
    let m7 = store m6 (fis + 7) (1 <<< 6) in
    let m8 = store m7 (fis + 8) (q.start_l >>> 24) in
    let m9 = store m8 (fis + 9) q.start_h in
    let m10 = store m9 (fis + 10) (q.start_h >>> 8) in
    let m11 = store m10 (fis + 12) (bit_and count 0xff) in
    store m11 (fis + 13) (bit_and (count >>> 8) 0xff)

-- The length of `memset`: `prdtl - 1` is an `int` that is converted to `size_t`.
abbrev pub table_bytes : ℕ → ℕ
table_bytes prdtl = (cmd_table_size + (prdtl + 2 ^ 64 - 1) % 2 ^ 64 * prdt_entry_size) % 2 ^ 64

-- The table is cleared, and gets the entries of the scatter list and the command.
unfoldable pub write_table : ℕ → ℕ → Request → Memory → Memory
write_table table prdtl q m =
    let (count, buf, m2) =
      write_entries (prdtl - 1) 0 table q.count q.buf (memset table 0 (table_bytes prdtl) m) in
    let m3 =
      write_entry (entry_address table (prdtl - 1)) buf
        ((count * 2 ^ 9 % 2 ^ 32 + 2 ^ 32 - 1) % 2 ^ 32) m2 in
    write_fis table q count m3

-- All that `runCommand` writes before it issues the command in the slot of the header.
unfoldable pub prepare : ℕ → Request → Memory → Memory
prepare header q m =
    let m1 = write_header header q m in
    write_table (read_le 4 m1 (header + 8)) (read_le 2 m1 (header + 2)) q m1
