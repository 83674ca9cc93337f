-- ===== src/Memory/Pmm/Tests.antt =====
-- Runs of the allocator of kernel/memory/pmm.c.
use maken_os.Base.{
  ℕ, ◌+◌, ◌*◌, ◌≡◌, ◌≢◌, ◌<◌, ◌≤◌, refl, arith, some, Memory, read_le, write_le, if◌then◌else◌,
  ◌==◌,
}
use maken_os.Klib.Mem.{memset}
use maken_os.Memory.Pmm.{MemmapEntry, take_block, b_malloc, k_malloc, k_free}
use maken_os.Memory.Pmm.Blocks.{Ends, k_malloc-Ends}
use maken_os.Memory.Pmm.Faults.{k_free-not_reused, second_block_overlaps}

abbrev blank : Memory
blank a = 0

abbrev usable : MemmapEntry
usable = record { base = 0x1000; length = 0x2000; kind = 0 }

k_malloc-Ends_example : Ends 0x1000 0x2000 100 blank (k_malloc 2 usable 100 blank)
k_malloc-Ends_example = k_malloc-Ends 1 100 usable blank (omega arith) (omega arith) (omega arith)

second_block_overlaps_example :
    (p q : ℕ) × (m1 m2 : Memory) × (k_malloc 2 usable 5000 blank ≡ some (some p, m1))
    × (k_malloc 2 usable 100 m1 ≡ some (some q, m2))
    × (p < q)
    × (q < p + 8 * 5000)
    × (0x1000 + 0x2000 ≤ q)
unfolding read_le
second_block_overlaps_example =
    second_block_overlaps 5000 100 usable blank (omega arith) (omega arith) (omega arith)
      (omega arith) (omega arith) refl

-- The block of one word at 0x1008, in use.
abbrev used : Memory
used a = if a == 0x1000 then 1 else 0

abbrev next : Memory
next = memset 0x9008 0 8 (write_le 8 (k_free 0x1008 used) 0x9000 1)

next_block : k_malloc 2 usable 1 (k_free 0x1008 used) ≡ some (some 0x9008, next)
unfolding k_malloc b_malloc take_block k_free read_le memset
next_block = refl

k_free-not_reused_example : ◌≢◌ {A = ℕ} 0x9008 0x1008
unfolding read_le
k_free-not_reused_example =
    k_free-not_reused 1 0x1008 1 0x9008 usable used next (omega arith) (omega arith) (omega arith)
      (omega arith) (λ e. omega arith) next_block
