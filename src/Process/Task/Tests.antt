-- ===== src/Process/Task/Tests.antt =====
-- Two tasks of kernel/process/task.c.
use maken_os.Base.{ℕ, Memory}
use maken_os.Sys.Trace.{History, Event}
use maken_os.Memory.Pmm.{MemmapEntry, take_block}

abbrev empty : Memory
empty a = 0

abbrev usable : MemmapEntry
usable = record { base = 0x10000; length = 0x2000; kind = 0 }

abbrev silent : History → Event → ℕ
silent h e = 0

abbrev with_stack : Memory
with_stack = (take_block 0x10000 4096 empty).1
