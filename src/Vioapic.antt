-- ===== src/Vioapic.antt =====
-- The emulated I/O APIC (src/vmm/io/vioapic.c): the definitions in `Device`, the theorems in the
-- other children.
pub mod Device
pub mod Entry
pub mod Send
pub mod Eoi
pub mod Invariant
pub mod Reach
pub mod Pins
mod Tests
