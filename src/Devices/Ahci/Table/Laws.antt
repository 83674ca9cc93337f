-- ===== src/Devices/Ahci/Table/Laws.antt =====
-- The scatter list and the command that `runCommand` of kernel/devices/ahci.c writes.
use native.Mathlib.Decide.{dec_lt}
use maken_os.Klib.Mem.{memset}
use maken_os.Klib.Mem.Laws.{memset_lem}
use maken_os.Base.{
  ℕ, zero, suc, ◌+◌, ◌-◌, ◌*◌, ◌/◌, ◌%◌, ◌^◌, ◌≤◌, ◌<◌, ◌≡◌, refl, ◌∙◌, arith, inl, inr, ◌⊎◌, min,
  bit_and_mask, Memory, read_le, write_le, write_le-SameOutside,
}
use maken_os.Devices.Ahci.Table.{
  Request, entry_address, prdtl_of, write_entry, write_entries, write_fis, write_table, table_bytes,
}
use maken_os.Devices.Ahci.Table.Entries.{
  NamesLow, NamesLow-same, NamesLow-at, write_entry-NamesLow, write_entry-SameOutside,
  write_entries-NamesLow, write_entries-rest, write_fis-SameOutside,
}

-- The entry at the address names `bytes` bytes from `buf` on: the address of 64 bits, whose upper half
-- is `dbau`, and the length.
abbrev pub Names : ℕ → ℕ → ℕ → Memory → Type 0
Names entry buf bytes m =
    (read_le 8 m entry ≡ buf) × (read_le 4 m (entry + 12) % 2 ^ 22 + 1 ≡ bytes)

-- The number of entries: one for every sixteen sectors, the last one for what is left.
abbrev pub entries_of : ℕ → ℕ
entries_of count = (count + 15) / 16

module _ (table : ℕ) (q : Request) (m : Memory) (some_sectors : 0 < q.count)
    (fits : q.count ≤ 16 * 65535) where
  pub prdtl_of-entries_of : prdtl_of q.count ≡ entries_of q.count
  prdtl_of-entries_of = omega arith

  abbrev pub cleared : Memory
  cleared = memset table 0 (table_bytes (prdtl_of q.count)) m

  abbrev pub listed : ℕ × ℕ × Memory
  listed = write_entries (prdtl_of q.count - 1) 0 table q.count q.buf cleared

  abbrev last_length : ℕ
  last_length = (listed.0 * 2 ^ 9 % 2 ^ 32 + 2 ^ 32 - 1) % 2 ^ 32

  abbrev pub finished : Memory
  finished = write_entry (entry_address table (prdtl_of q.count - 1)) listed.1 last_length listed.2

  rest :
      (listed.0 ≡ q.count - 16 * (entries_of q.count - 1))
      × (listed.1 % 2 ^ 32 ≡ (q.buf + 8192 * (entries_of q.count - 1)) % 2 ^ 32)
  rest =
      let r =
        write_entries-rest (prdtl_of q.count - 1) 0 table q.count q.buf cleared (omega arith)
          (omega arith) in
      (r.0 ∙ omega arith, r.1 ∙ omega arith)

  finished-NamesLow :
      (i : ℕ)
      → i < entries_of q.count
      → NamesLow
          (entry_address table i)
          (q.buf + 8192 * i)
          (min 8192 (512 * q.count - 8192 * i))
          finished
  finished-NamesLow i h = elim (dec_lt i (prdtl_of q.count - 1)) [
    | yes before ↦
        NamesLow-at (entry_address table (0 + i)) (entry_address table i) (q.buf + 8192 * i)
          (q.buf + 8192 * i) 8192 _ finished (omega arith) refl (omega arith)
          (NamesLow-same (entry_address table (0 + i)) (q.buf + 8192 * i) 8192 listed.2 finished
            (λ b lo hi.
              write_entry-SameOutside (entry_address table (prdtl_of q.count - 1)) listed.1
                last_length listed.2 b (inl (omega arith)))
            (write_entries-NamesLow (prdtl_of q.count - 1) 0 table q.count q.buf i cleared before))
    | no at ↦
        NamesLow-at (entry_address table (prdtl_of q.count - 1)) (entry_address table i) listed.1
          (q.buf + 8192 * i) (last_length + 1) _ finished (omega arith) (rest.1 ∙ omega arith)
          (omega (arith, rest.0))
          (write_entry-NamesLow (entry_address table (prdtl_of q.count - 1)) listed.1 last_length
            listed.2 (omega (arith, rest.0)))
  ]

write_table-NamesLow :
    (table : ℕ) (q : Request) (m : Memory) (i : ℕ)
    → 0 < q.count
    → q.count ≤ 16 * 65535
    → i < entries_of q.count
    → NamesLow
        (entry_address table i)
        (q.buf + 8192 * i)
        (min 8192 (512 * q.count - 8192 * i))
        (write_table table (prdtl_of q.count) q m)
unfolding write_table
write_table-NamesLow table q m i some_sectors fits h =
    let done = finished table q m some_sectors fits in
    NamesLow-same (entry_address table i) (q.buf + 8192 * i) _ done
      (write_fis table q (listed table q m some_sectors fits).0 done)
      (λ b lo hi.
        write_fis-SameOutside table q (listed table q m some_sectors fits).0 done b
          (inr (omega arith)))
      (finished-NamesLow table q m some_sectors fits i h)

-- The second word of each entry, `dbau`, is not written, and the table was cleared.
write_entry-kept :
    (entry buf dbc b : ℕ) (m : Memory)
    → (b < entry) ⊎ (entry + 4 ≤ b)
    → (b < entry + 12) ⊎ (entry + 16 ≤ b)
    → write_entry entry buf dbc m b ≡ m b
unfolding write_entry
write_entry-kept entry buf dbc b m low high =
    write_le-SameOutside 4 (write_le 4 m entry (buf % 2 ^ 32)) (entry + 12) _ b (omega arith)
    ∙ write_le-SameOutside 4 m entry (buf % 2 ^ 32) b (omega arith)

write_entries-kept :
    (left i table count buf j b : ℕ) (m : Memory)
    → entry_address table j + 4 ≤ b
    → b < entry_address table j + 8
    → (write_entries left i table count buf m).2 b ≡ m b
unfolding write_entries
write_entries-kept zero i table count buf j b m lo hi = refl
write_entries-kept (suc left) i table count buf j b m lo hi =
    write_entries-kept left (i + 1) table _ _ j b _ lo hi
    ∙ write_entry-kept (entry_address table i) buf 8191 b m (omega arith) (omega arith)

write_table-upper :
    (table : ℕ) (q : Request) (m : Memory) (i b : ℕ)
    → 0 < q.count
    → q.count ≤ 16 * 65535
    → i < entries_of q.count
    → entry_address table i + 4 ≤ b
    → b < entry_address table i + 8
    → write_table table (prdtl_of q.count) q m b ≡ 0
unfolding write_table
write_table-upper table q m i b some_sectors fits h lo hi =
    write_fis-SameOutside table q (listed table q m some_sectors fits).0 _ b (inr (omega arith))
    ∙ write_entry-kept (entry_address table (prdtl_of q.count - 1)) _ _ b _ (omega arith)
        (omega arith)
    ∙ write_entries-kept (prdtl_of q.count - 1) 0 table q.count q.buf i b
        (cleared table q m some_sectors fits) lo hi
    ∙ ground (
      arith,
      memset_lem table 0 (table_bytes (prdtl_of q.count)) m b,
      prdtl_of-entries_of table q m some_sectors fits,
    )

read_le-low :
    (m : Memory) (a : ℕ)
    → ((b : ℕ) → a + 4 ≤ b → b < a + 8 → m b ≡ 0)
    → read_le 8 m a ≡ read_le 4 m a
unfolding read_le
read_le-low m a zeros = omega (
  arith,
  zeros (a + 1 + 1 + 1 + 1) (omega arith) (omega arith),
  zeros (a + 1 + 1 + 1 + 1 + 1) (omega arith) (omega arith),
  zeros (a + 1 + 1 + 1 + 1 + 1 + 1) (omega arith) (omega arith),
  zeros (a + 1 + 1 + 1 + 1 + 1 + 1 + 1) (omega arith) (omega arith),
)

-- For a request of 1 to 16 * 65535 sectors with a buffer that ends at 2^32 at most, the scatter list
-- that `runCommand` writes covers the buffer: entry `i` names the bytes from 8192 * i on, by their
-- address of 64 bits, eight kilobytes or what is left of the request.
pub write_table-Names :
    (table : ℕ) (q : Request) (m : Memory) (i : ℕ)
    → 0 < q.count
    → q.count ≤ 16 * 65535
    → q.buf + 512 * q.count ≤ 2 ^ 32
    → i < entries_of q.count
    → Names
        (entry_address table i)
        (q.buf + 8192 * i)
        (min 8192 (512 * q.count - 8192 * i))
        (write_table table (prdtl_of q.count) q m)
write_table-Names table q m i some_sectors fits below h =
    let low = write_table-NamesLow table q m i some_sectors fits h in
    (
      read_le-low (write_table table (prdtl_of q.count) q m) (entry_address table i)
            (λ b lo hi. write_table-upper table q m i b some_sectors fits h lo hi)
          ∙ low.0
          ∙ omega arith,
      low.1,
    )

write_fis-bytes :
    (fis : ℕ) (q : Request) (count : ℕ) (m : Memory)
    → let m' = write_fis fis q count m in
      (m' fis ≡ 0x27)
      × (m' (fis + 2) ≡ q.kind % 256)
      × (m' (fis + 4) ≡ q.start_l % 256)
      × (m' (fis + 5) ≡ q.start_l / 2 ^ 8 % 256)
      × (m' (fis + 6) ≡ q.start_l / 2 ^ 16 % 256)
      × (m' (fis + 8) ≡ q.start_l / 2 ^ 24 % 256)
      × (m' (fis + 9) ≡ q.start_h % 256)
      × (m' (fis + 10) ≡ q.start_h / 2 ^ 8 % 256)
      × (m' (fis + 12) ≡ count % 256)
      × (m' (fis + 13) ≡ count / 2 ^ 8 % 256)
unfolding write_fis
write_fis-bytes fis q count m =
    let low = bit_and_mask 8 count in
    let high = bit_and_mask 8 (count / 2 ^ 8) in
    (
      ground arith,
      ground arith,
      ground arith,
      ground arith,
      ground arith,
      ground arith,
      ground arith,
      ground arith,
      ground (arith, low),
      ground (arith, high),
    )

-- For a request of 1 to 16 * 65535 sectors, the command of the table has the kind of the request
-- and its start: the low word in 32 bits, 16 bits of the high one. Its count is that of the last
-- entry alone, not that of the request.
pub write_table-command :
    (table : ℕ) (q : Request) (m : Memory)
    → 0 < q.count
    → q.count ≤ 16 * 65535
    → q.kind < 256
    → q.start_l < 2 ^ 32
    → let m' = write_table table (prdtl_of q.count) q m in
      (m' table ≡ 0x27)
      × (m' (table + 2) ≡ q.kind)
      × (m' (table + 4) + m' (table + 5) * 2 ^ 8 + m' (table + 6) * 2 ^ 16 + m' (table + 8) * 2 ^ 24
          ≡ q.start_l)
      × (m' (table + 9) + m' (table + 10) * 2 ^ 8 ≡ q.start_h % 2 ^ 16)
      × (m' (table + 12) + m' (table + 13) * 2 ^ 8 ≡ q.count - 16 * (entries_of q.count - 1))
unfolding write_table
write_table-command table q m some_sectors fits kind start =
    let left = (listed table q m some_sectors fits).0 in
    let (type_byte, command, l0, l1, l2, l3, h0, h1, c0, c1) =
      write_fis-bytes table q left (finished table q m some_sectors fits) in
    (
      type_byte,
      omega (arith, command),
      omega (arith, l0, l1, l2, l3),
      omega (arith, h0, h1),
      omega (arith, c0, c1, (rest table q m some_sectors fits).0),
    )
