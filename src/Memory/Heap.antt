-- ===== src/Memory/Heap.antt =====
-- kernel/memory/heap.c: `malloc`, which has no heap yet.
use maken_os.Base.{ℕ, Option, none}

unfoldable pub malloc : ℕ → Option ℕ
malloc size = none
