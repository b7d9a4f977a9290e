-- ===== src/Vm.antt =====
-- The package cmd/vm: the commands on virtual machines.
pub mod DataDisk
pub mod Record
pub mod Host
pub mod Store
pub mod Monitor
pub mod Vnc
pub mod VncProxy
pub mod Commands
pub mod VncPipe
pub mod Process
pub mod Net
pub mod Lifecycle
pub mod Snapshot
pub mod Provision
pub mod Create
pub mod Clone
pub mod Gc
pub mod Query
pub mod Tests
