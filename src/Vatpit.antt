-- ===== src/Vatpit.antt =====
-- The emulated 8254 timer (src/vmm/io/vatpit.c): the definitions in `Device`, the theorems in the
-- other children.
pub mod Device
pub mod Invariant
pub mod Runs
pub mod Latch
mod Tests
