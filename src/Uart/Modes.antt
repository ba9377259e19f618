-- ===== src/Uart/Modes.antt =====
-- The modes of the receive FIFO of the serial port (src/uart_emul.c).
use xhyve_manager.Base.{ℕ, ◌<◌, ◌≡◌, ◌&&◌, ◌||◌, [], arith, if◌then◌else◌}
use mathlib.Core.Bool.{xor}
use xhyve_manager.Base.Bits.{has_bit, has_bit-test_bit}
use xhyve_manager.Uart.Fifo.{rxfifo_reset}
use xhyve_manager.Uart.Queue.{contents}
use xhyve_manager.Uart.Flow.{rxfifo_reset_lem}
use xhyve_manager.Uart.Device.{Uart, uart_toggle_intr, write_fcr, write_register, uart_write}
use xhyve_manager.Uart.Invariant.{IsSound}
use xhyve_manager.Uart.Differs.{differs-bit}

-- A write to the FIFO control register empties the FIFO exactly when it changes between the modes or
-- asks for a reset with the FIFO enabled; else the characters stay. The condition is that the port
-- is sound.
pub write_fcr_lem :
    (s : Uart) (value : ℕ)
    → IsSound s
    → value < 256
    → contents (uart_write s 2 value).port.fifo ≡ (
        if xor (has_bit s.fcr 0) (has_bit value 0) || (has_bit value 0 && has_bit value 1)
        then []
        else contents s.port.fifo)
unfolding uart_write write_register write_fcr uart_toggle_intr
write_fcr_lem s value v fits =
    let f = s.port in
    ground (
      arith,
      differs-bit 8 s.fcr value 0 v.fcr_lt fits,
      has_bit-test_bit s.fcr 0,
      has_bit-test_bit value 0,
      (rxfifo_reset_lem f 16 (omega arith) (omega arith)).1,
      (rxfifo_reset_lem f 1 (omega arith) (omega arith)).1,
      (rxfifo_reset_lem (rxfifo_reset f 16) 16 (omega arith) (omega arith)).1,
    )
