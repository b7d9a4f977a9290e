-- ===== src/Qemu.antt =====
-- The package qemu: the command line of a guest, its Apple identity, and the OpenCore disk.
pub mod Nbd
pub mod Inject
pub mod Plist
pub mod Options
pub mod Launch
pub mod Smbios
pub mod Snapshot
pub mod Tests
