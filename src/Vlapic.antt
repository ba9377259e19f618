-- ===== src/Vlapic.antt =====
-- The local APICs of a machine (src/vmm/io/vlapic.c, src/vmm/vmm_lapic.c): the state in `Device`.
pub mod Vectors
pub mod Device
pub mod Lvt
pub mod Access
pub mod Reset
pub mod Ipi
pub mod Lapic
pub mod Stack
pub mod Push
pub mod Service
pub mod Kept
pub mod Machine
pub mod Calls
pub mod Deliver
pub mod Runs
pub mod Nesting
pub mod Boot
pub mod Startup
pub mod Errors
pub mod Named
pub mod Destinations
mod Tests
