-- ===== src/Interfaces.antt =====
-- kernel/interfaces: the ACPI tables.
pub mod Acpi
pub mod Madt
pub mod Fadt
