-- ===== src/Klib.antt =====
-- kernel/lib: the freestanding string, memory and number routines.
pub mod Mem
pub mod Str
pub mod Num
pub mod Print
