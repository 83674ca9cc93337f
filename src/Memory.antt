-- ===== src/Memory.antt =====
-- kernel/memory: the block allocator, the page tables and the heap.
pub mod Pmm
pub mod Paging
pub mod Heap
