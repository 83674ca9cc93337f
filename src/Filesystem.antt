-- ===== src/Filesystem.antt =====
-- kernel/filesystem: the node interface, the ram disk behind it, and the simple file system.
pub mod File
pub mod Initrd
pub mod Simplefs
