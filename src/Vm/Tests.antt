-- ===== src/Vm/Tests.antt =====
-- Examples: each theorem on the machines, at a concrete input.
pub mod Toy
pub mod Disks
pub mod Machines
mod Locks
mod Commands
