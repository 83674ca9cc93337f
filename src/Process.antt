-- ===== src/Process.antt =====
-- kernel/process: cooperative tasks.
pub mod Task
