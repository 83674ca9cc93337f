-- ===== src/Interrupts/Gdt.antt =====
-- kernel/gdt.c: segment descriptors.
pub mod Laws
mod Tests
use maken_os.Base.{ℕ, ◌+◌, ◌%◌, ◌^◌, List, set, bit_and, ◌>>>◌, Memory, store, write_le}

-- `struct SegmentDescriptor`
pub record SegmentDescriptor : Type 0 where
  pub base : ℕ
  pub flags : ℕ
  pub access_byte : ℕ
  pub base_high : ℕ
  pub base_low : ℕ
  pub limit_low : ℕ

-- The packed structure in memory, in the order of its members.
unfoldable pub store_descriptor : ℕ → SegmentDescriptor → Memory → Memory
store_descriptor entry d m =
    write_le 2
      (write_le 2
        (store (store (store (store m entry d.base) (entry + 1) d.flags) (entry + 2) d.access_byte)
          (entry + 3) d.base_high)
        (entry + 4) d.base_low)
      (entry + 6) d.limit_low

-- The members have 8 bits, but the last two 16.
unfoldable pub set_gdt_entry : ℕ → ℕ → ℕ → ℕ → SegmentDescriptor
set_gdt_entry base flags access_byte limit = record {
  base = (base >>> 24) % 2 ^ 8;
  base_high = bit_and (base >>> 16) 0xff;
  base_low = bit_and base 0xffff;
  flags = flags % 2 ^ 8;
  access_byte = access_byte % 2 ^ 8;
  limit_low = limit % 2 ^ 16;
}

-- The parts for `entry_1` and `entry_2`.
unfoldable pub set_system_entry : ℕ → ℕ → ℕ → ℕ → SegmentDescriptor × SegmentDescriptor
set_system_entry base flags access_byte limit = (
  record {
    base = 0;
    flags = 0;
    access_byte = 0;
    base_high = 0;
    base_low = (base >>> 48) % 2 ^ 16;
    limit_low = bit_and (base >>> 32) 0xffff;
  },
  record {
    base = bit_and (base >>> 24) 0xff;
    flags = flags % 2 ^ 8;
    access_byte = access_byte % 2 ^ 8;
    base_high = bit_and (base >>> 8) 0xff;
    base_low = bit_and base 0xffff;
    limit_low = limit % 2 ^ 16;
  },
)

-- `lgdt` follows.
unfoldable pub init_gdt : List SegmentDescriptor → List SegmentDescriptor
init_gdt entries =
    set
      (set
        (set (set (set entries 0 (set_gdt_entry 0 0 0 0)) 1 (set_gdt_entry 0 0xcf 0x9a 0xffff)) 2
          (set_gdt_entry 0 0xcf 0x92 0xffff))
        3 (set_gdt_entry 0 0xcf 0xfa 0xffff))
      4 (set_gdt_entry 0 0xcf 0xf2 0xffff)
