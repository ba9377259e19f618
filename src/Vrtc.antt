-- ===== src/Vrtc.antt =====
-- The emulated real-time clock (src/vmm/io/vrtc.c): the calendar in `Calendar`, the registers in
-- `Registers`, the running clock in `Device`, its ports in `Ports`, and theorems in the others.
pub mod Loops
pub mod Calendar
pub mod RoundTrip
pub mod Leaps
pub mod Registers
pub mod Formats
pub mod Device
pub mod Ports
pub mod Time
pub mod Update
pub mod Invariant
pub mod Control
pub mod Runs
pub mod Interrupts
pub mod Halted
pub mod Resume
mod Tests
