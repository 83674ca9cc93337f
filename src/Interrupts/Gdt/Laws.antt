-- ===== src/Interrupts/Gdt/Laws.antt =====
-- What the processor reads from the descriptors of kernel/gdt.c. The structure in kernel/gdt.h has its
-- members in the reverse order of the processor's.
use maken_os.Base.{
  ℕ, ◌+◌, ◌*◌, ◌/◌, ◌%◌, ◌^◌, ◌<◌, ◌≡◌, ◌∙◌, ap, arith, bit_and_mask, ◌>>>◌, Memory, read_le,
  write_le, SameOutside, inl,
}
use maken_os.Interrupts.Gdt.{SegmentDescriptor, store_descriptor, set_system_entry}

-- A segment descriptor of the processor at `entry`: the low sixteen bits of the limit, the base
-- in three parts with the access byte before the last one, and in the byte between them the flags
-- and four more bits of the limit. Of a system descriptor, the next word is the upper half of
-- the base.
module _ (entry : ℕ) (m : Memory) where
  abbrev pub base_of : ℕ
  base_of = m (entry + 2) + m (entry + 3) * 2 ^ 8 + m (entry + 4) * 2 ^ 16 + m (entry + 7) * 2 ^ 24

  abbrev pub upper_base_of : ℕ
  upper_base_of = read_le 4 m (entry + 8)

  abbrev pub access_of : ℕ
  access_of = m (entry + 5)

  abbrev pub limit_of : ℕ
  limit_of = read_le 2 m entry + m (entry + 6) % 2 ^ 4 * 2 ^ 16

-- The bytes of a stored descriptor, and nothing else in memory.
record Stored (entry : ℕ) (d : SegmentDescriptor) (m m' : Memory) : Type 0 where
  byte0 : m' entry ≡ d.base % 2 ^ 8
  byte1 : m' (entry + 1) ≡ d.flags % 2 ^ 8
  byte2 : m' (entry + 2) ≡ d.access_byte % 2 ^ 8
  byte3 : m' (entry + 3) ≡ d.base_high % 2 ^ 8
  byte4 : m' (entry + 4) ≡ d.base_low % 2 ^ 8
  byte5 : m' (entry + 5) ≡ d.base_low / 2 ^ 8 % 2 ^ 8
  byte6 : m' (entry + 6) ≡ d.limit_low % 2 ^ 8
  byte7 : m' (entry + 7) ≡ d.limit_low / 2 ^ 8 % 2 ^ 8
  outside : SameOutside entry 8 m m'

store_descriptor-Stored :
    (entry : ℕ) (d : SegmentDescriptor) (m : Memory) → Stored entry d m (store_descriptor entry d m)
unfolding store_descriptor write_le
store_descriptor-Stored entry d m = record {
  byte0 = ground arith;
  byte1 = ground arith;
  byte2 = ground arith;
  byte3 = ground arith;
  byte4 = ground arith;
  byte5 = ground arith;
  byte6 = ground arith;
  byte7 = ground arith;
  outside = λ b out. ground arith;
}

-- What the processor reads of a base, flags, access byte and limit that were given to
-- `setSystemEntry`.
pub record IsReversed (base flags access_byte limit entry : ℕ) (m : Memory) : Type 0 where
  pub base_read :
      base_of entry m
      ≡ access_byte + base / 2 ^ 8 % 2 ^ 8 * 2 ^ 8 + base % 2 ^ 8 * 2 ^ 16 + limit / 2 ^ 8 * 2 ^ 24
  pub upper_base_read : upper_base_of entry m ≡ 0
  pub access_read : access_of entry m ≡ base / 2 ^ 8 % 2 ^ 8
  pub limit_read : limit_of entry m ≡ base / 2 ^ 24 % 2 ^ 8 + flags * 2 ^ 8 + limit % 2 ^ 4 * 2 ^ 16

-- From the second descriptor of `setSystemEntry` at `entry` and the first one behind it, where the
-- arguments have their widths, the processor reads the access byte as the low byte of the base,
-- the second byte of the base in its place and also as the access byte, the low byte of the base as
-- its third, the upper byte of the limit as its fourth, 0 as its upper half, and the fourth byte of
-- the base and the flags as the limit, with the low four bits of the limit on top.
pub set_system_entry-IsReversed :
    (base flags access_byte limit entry : ℕ) (m : Memory)
    → base < 2 ^ 64
    → flags < 2 ^ 8
    → access_byte < 2 ^ 8
    → limit < 2 ^ 16
    → let e = set_system_entry base flags access_byte limit in
      IsReversed base flags access_byte limit entry
        (store_descriptor (entry + 8) e.0 (store_descriptor entry e.1 m))
unfolding set_system_entry read_le
set_system_entry-IsReversed base flags access_byte limit entry m small flags8 access8 limit16 =
    let e = set_system_entry base flags access_byte limit in
    let m1 = store_descriptor entry e.1 m in
    let lower = store_descriptor-Stored entry e.1 m in
    let upper = store_descriptor-Stored (entry + 8) e.0 m1 in
    let kept = upper.outside in
    let b0 = bit_and_mask 16 base in
    let b1 = bit_and_mask 8 (base >>> 8) in
    let b3 = bit_and_mask 8 (base >>> 24) in
    let m2 = store_descriptor (entry + 8) e.0 m1 in
    let second : m2 (entry + 8 + 1 + 1) ≡ 0 =
      ap m2 {y = entry + 8 + 2} (omega arith) ∙ upper.byte2 in
    let third : m2 (entry + 8 + 1 + 1 + 1) ≡ 0 =
      ap m2 {y = entry + 8 + 3} (omega arith) ∙ upper.byte3 in
    record {
      base_read = omega (
        arith,
        kept (entry + 2) (inl (omega arith)),
        kept (entry + 3) (inl (omega arith)),
        kept (entry + 4) (inl (omega arith)),
        kept (entry + 7) (inl (omega arith)),
        lower.byte2,
        lower.byte3,
        lower.byte4,
        lower.byte7,
        b0,
        b1,
      );
      upper_base_read = omega (arith, upper.byte0, upper.byte1, second, third);
      access_read = omega (arith, kept (entry + 5) (inl (omega arith)), lower.byte5, b0);
      limit_read = omega (
        arith,
        kept entry (inl (omega arith)),
        kept (entry + 1) (inl (omega arith)),
        kept (entry + 6) (inl (omega arith)),
        lower.byte0,
        lower.byte1,
        lower.byte6,
        b3,
      );
    }
