-- ===== src/Devices/Ahci/Table/Prepared.antt =====
-- All that `runCommand` of kernel/devices/ahci.c writes before it issues a command: the header of the
-- slot and the table that the header names.
use mathlib.Core.Path.{subst}
use native.Mathlib.Decide.{dec_lt}
use maken_os.Klib.Mem.Laws.{memset_lem}
use maken_os.Base.{
  ℕ, ◌+◌, ◌-◌, ◌*◌, ◌/◌, ◌%◌, ◌^◌, ◌≤◌, ◌<◌, ◌≡◌, ◌∙◌, sym, ap, ap₂, arith, ◌⊎◌, inl, inr, min,
  Memory, SameOutside, read_le, read_le_ext, write_le-SameOutside, read_le-write_le,
}
use maken_os.Devices.Ahci.Table.{
  Request, entry_address, prdtl_of, table_bytes, write_header, write_table, prepare,
}
use maken_os.Devices.Ahci.Table.Entries.{
  write_entry-SameOutside, write_entries-SameOutside, write_fis-SameOutside,
}
use maken_os.Devices.Ahci.Table.Laws.{
  Names, entries_of, listed, prdtl_of-entries_of, write_table-Names, write_table-command,
}

-- A request that the scatter list can hold: 1 to 16 * 65535 sectors, with a buffer that ends at 2^32
-- at most.
pub record IsRequest (q : Request) : Type 0 where
  pub some_sectors : 0 < q.count
  pub fits : q.count ≤ 16 * 65535
  pub below : q.buf + 512 * q.count ≤ 2 ^ 32
  pub kind : q.kind < 256
  pub start : q.start_l < 2 ^ 32

-- The header says how long the command and the scatter list are and in which direction the data go,
-- unless the table lies over it; the entries of the list name the buffer; the command has the kind and
-- the start of the request, and as its count that of the last entry. Nothing else has changed.
pub record Prepared (header table : ℕ) (q : Request) (m m' : Memory) : Type 0 where
  pub described :
      ((table < header + 4) × (header < table + 128 + 16 * entries_of q.count))
      ⊎ ((m' header % 2 ^ 5 ≡ 5)
          × (m' header / 2 ^ 6 % 2 ≡ q.write % 2)
          × (read_le 2 m' (header + 2) ≡ entries_of q.count))
  pub entries :
      (i : ℕ)
      → i < entries_of q.count
      → Names (entry_address table i) (q.buf + 8192 * i) (min 8192 (512 * q.count - 8192 * i)) m'
  pub command :
      (m' table ≡ 0x27)
      × (m' (table + 2) ≡ q.kind)
      × (m' (table + 4) + m' (table + 5) * 2 ^ 8 + m' (table + 6) * 2 ^ 16 + m' (table + 8) * 2 ^ 24
          ≡ q.start_l)
      × (m' (table + 9) + m' (table + 10) * 2 ^ 8 ≡ q.start_h % 2 ^ 16)
      × (m' (table + 12) + m' (table + 13) * 2 ^ 8 ≡ q.count - 16 * (entries_of q.count - 1))
  pub same :
      (b : ℕ)
      → (b < header) ⊎ (header + 4 ≤ b)
      → (b < table) ⊎ (table + 128 + 16 * entries_of q.count ≤ b)
      → m' b ≡ m b

write_header-SameOutside :
    (header : ℕ) (q : Request) (m : Memory) → SameOutside header 4 m (write_header header q m)
unfolding write_header
write_header-SameOutside header q m b out =
    write_le-SameOutside 2 _ (header + 2) (prdtl_of q.count) b (omega arith) ∙ ground arith

write_header-prdtl :
    (header : ℕ) (q : Request) (m : Memory)
    → read_le 2 (write_header header q m) (header + 2) ≡ prdtl_of q.count
unfolding write_header
write_header-prdtl header q m = read_le-write_le 2 _ (header + 2) (prdtl_of q.count) (omega arith)

write_header-first :
    (header : ℕ) (q : Request) (m : Memory)
    → (write_header header q m header % 2 ^ 5 ≡ 5)
      × (write_header header q m header / 2 ^ 6 % 2 ≡ q.write % 2)
unfolding write_header
write_header-first header q m =
    let kept =
      write_le-SameOutside 2 _ (header + 2) (prdtl_of q.count) header (inl (omega arith)) in
    (
      ap (λ (v : ℕ). v % 2 ^ 5) kept ∙ ground arith,
      ap (λ (v : ℕ). v / 2 ^ 6 % 2) kept ∙ ground arith,
    )

module _ (table : ℕ) (q : Request) (m : Memory) (request : IsRequest q) where
  abbrev all : ℕ × ℕ × Memory
  all = listed table q m request.some_sectors request.fits

  write_table-SameOutside :
      SameOutside table (128 + 16 * entries_of q.count) m (write_table table (prdtl_of q.count) q m)
  unfolding write_table
  write_table-SameOutside b out =
      let size = prdtl_of-entries_of table q m request.some_sectors request.fits in
      write_fis-SameOutside table q all.0 _ b (omega arith)
      ∙ write_entry-SameOutside (entry_address table (prdtl_of q.count - 1)) _ _ _ b
          (omega (arith, size, request.some_sectors))
      ∙ write_entries-SameOutside (prdtl_of q.count - 1) 0 table q.count q.buf _ b
          (omega (arith, size))
      ∙ ground (arith, memset_lem table 0 (table_bytes (prdtl_of q.count)) m b, size)

module _ (header : ℕ) (q : Request) (m : Memory) (request : IsRequest q) where
  abbrev table_of : ℕ
  table_of = read_le 4 m (header + 8)

  abbrev with_header : Memory
  with_header = write_header header q m

  prepare-write_table : prepare header q m ≡ write_table table_of (prdtl_of q.count) q with_header
  unfolding prepare
  prepare-write_table =
      ap₂ (λ (table prdtl : ℕ). write_table table prdtl q with_header)
        (read_le_ext 4 m with_header (header + 8)
          (λ b lo hi. write_header-SameOutside header q m b (omega arith)))
        (write_header-prdtl header q m)

  -- The header where the table does not reach it.
  apart_from :
      ((header + 4 ≤ table_of) ⊎ (table_of + 128 + 16 * entries_of q.count ≤ header))
      → let m' = write_table table_of (prdtl_of q.count) q with_header in
        (m' header % 2 ^ 5 ≡ 5)
        × (m' header / 2 ^ 6 % 2 ≡ q.write % 2)
        × (read_le 2 m' (header + 2) ≡ entries_of q.count)
  apart_from apart =
      let m' = write_table table_of (prdtl_of q.count) q with_header in
      let kept = write_table-SameOutside table_of q with_header request in
      let first = write_header-first header q m in
      (
        ap (λ (v : ℕ). v % 2 ^ 5) (kept header (omega arith)) ∙ first.0,
        ap (λ (v : ℕ). v / 2 ^ 6 % 2) (kept header (omega arith)) ∙ first.1,
        read_le_ext 2 with_header m' (header + 2) (λ b lo hi. kept b (omega arith))
            ∙ write_header-prdtl header q m
            ∙ prdtl_of-entries_of table_of q m request.some_sectors request.fits,
      )

  pub prepare-Prepared : Prepared header table_of q m (prepare header q m)
  prepare-Prepared = subst (Prepared header table_of q m) (sym prepare-write_table) (record {
    described = elim (dec_lt table_of (header + 4)) [
      | yes near ↦ elim (dec_lt header (table_of + 128 + 16 * entries_of q.count)) [
        | yes over ↦ inl (near, over)
        | no behind ↦ inr (apart_from (inr (omega arith)))
      ]
      | no before ↦ inr (apart_from (inl (omega arith)))
    ];
    entries = λ i h.
        write_table-Names table_of q with_header i request.some_sectors request.fits request.below
          h;
    command =
        write_table-command table_of q with_header request.some_sectors request.fits request.kind
          request.start;
    same = λ b out_header out_table.
        write_table-SameOutside table_of q with_header request b (omega arith)
        ∙ write_header-SameOutside header q m b out_header;
  })
