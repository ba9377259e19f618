-- ===== src/Uart.antt =====
-- The emulated 16550 serial port (src/uart_emul.c): the definitions in `Fifo`, `Device` and
-- `Backend`, the theorems in the other children.
pub mod Fifo
pub mod Device
pub mod Queue
pub mod Flow
pub mod Invariant
pub mod Backend
pub mod Runs
pub mod Transfer
pub mod Steps
pub mod Stream
pub mod Registers
pub mod Differs
pub mod Modes
pub mod Modem
pub mod Legacy
mod Tests
