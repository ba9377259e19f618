-- ===== src/Vatpic.antt =====
-- The pair of 8259A interrupt controllers (src/vmm/io/vatpic.c): the definitions in `Chip`,
-- `Command` and `Device`, the theorems in the other children.
pub mod Chip
pub mod Command
pub mod Device
pub mod Priority
pub mod Eoi
pub mod Invariant
pub mod Notify
pub mod Pair
pub mod Runs
pub mod Signals
pub mod Service
pub mod Lines
pub mod Startup
mod Tests
