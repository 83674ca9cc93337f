-- ===== src/Devices.antt =====
-- kernel/devices: the drivers.
pub mod Pic
pub mod Pit
pub mod Ps2
pub mod Serial
pub mod Apic
pub mod Ioapic
pub mod Pci
pub mod Ahci
