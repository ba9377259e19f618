-- ===== src/Uart/Tests.antt =====
-- Runs of the serial port, and the theorems at concrete states (src/uart_emul.c).
use xhyve_manager.Base.{◌≡◌, refl, true, false, some, List, [], ◌∷◌, ◌++◌, arith, replicate}
use xhyve_manager.Base.Bits.{test_bit}
use xhyve_manager.Base.Int.{pos}
use xhyve_manager.Uart.Fifo.{
  Fifo, Port, rxfifo_reset, rxfifo_putchar, rxfifo_getchar, drain_loop, flush,
}
use xhyve_manager.Uart.Queue.{IsValid, contents, enqueue, putchar_refines}
use xhyve_manager.Uart.Flow.{IsFlowing}
use xhyve_manager.Uart.Device.{
  Uart, uart_intr_reason, uart_toggle_intr, uart_reset, uart_init, uart_drain, write_fcr,
  write_register, uart_write, read_register, uart_read,
}
use xhyve_manager.Uart.Backend.{
  Answers, stdio, is_success, choose_tty, uart_opentty, uart_set_backend,
}
use xhyve_manager.Uart.Invariant.{IsSound, IsLineRight}
use xhyve_manager.Uart.Runs.{
  Op, write, read, event, arrive, step, uart_run, started, uart_run-IsSound, uart_run-IsLineRight,
}
use xhyve_manager.Uart.Transfer.{
  Transfer, take, send, status, ready, input, transfer, taken, received, backlog, IsTransferring,
}
use xhyve_manager.Uart.Stream.{transfer_lem}
use xhyve_manager.Uart.Registers.{overrun_lem}

-- A FIFO of 16 with the characters 7 and 8, that has gone round.
abbrev two_in : Fifo
two_in = record { buf = 8 ∷ replicate 14 0 ++ 7 ∷ []; rindex = 15; windex = 1; num = 2; size = 16 }

abbrev line_in : Port
line_in = record {
  fifo = two_in;
  opened = true;
  pending = 9 ∷ [];
  written = 1 ∷ [];
  listening = true;
}

-- A port in FIFO mode.
abbrev normal : Uart
normal = record {
  ier = 1;
  lcr = 3;
  mcr = 0;
  lsr = 0;
  msr = 0x40;
  fcr = 1;
  scr = 0;
  dll = 12;
  dlh = 0;
  port = line_in;
  thre_int_pending = false;
  asserted = true;
}

two_in-IsValid : IsValid two_in
two_in-IsValid = ground arith

line_in-IsFlowing : IsFlowing line_in
line_in-IsFlowing = record { valid = two_in-IsValid; enabled = λ e. refl }

normal-IsSound : IsSound normal
normal-IsSound = ground (arith, line_in-IsFlowing)

-- In loopback, with a FIFO of one character: empty, and full.
abbrev looped : Uart
looped = record normal {
  mcr = 0x10;
  fcr = 0;
  port = record line_in {
    fifo = record { buf = replicate 16 0; rindex = 0; windex = 0; num = 0; size = 1 };
  };
}

looped-IsSound : IsSound looped
looped-IsSound = ground arith

abbrev full : Uart
full = record looped {
  port = record line_in {
    fifo = record { buf = replicate 16 0; rindex = 0; windex = 0; num = 1; size = 1 };
    listening = false;
  };
}

abbrev fine : Answers
fine = record {
  fcntl = pos 0;
  ptmx = true;
  ptsname = true;
  grantpt = pos 0;
  unlockpt = pos 0;
  tty_open = true;
  isatty = true;
}

putchar_refines_example :
    let (taken, q) = rxfifo_putchar line_in 5 in
    ((taken, contents q.fifo) ≡ enqueue 16 (7 ∷ 8 ∷ []) 5) × IsValid q.fifo
putchar_refines_example = putchar_refines line_in 5 two_in-IsValid

-- The guest enables the FIFO and the receive interrupt; two characters arrive, and it reads one.
abbrev script : List Op
script = write 2 1 ∷ write 1 1 ∷ arrive (7 ∷ 8 ∷ []) ∷ event ∷ read 0 ∷ []

script_runs :
    let t = uart_run (started fine false (some stdio) []).2 script in
    (contents t.port.fifo ≡ 8 ∷ []) × (t.asserted ≡ true) × (t.port.listening ≡ true)
unfolding uart_run step uart_init uart_reset rxfifo_reset uart_set_backend choose_tty uart_opentty
    uart_write write_register write_fcr uart_toggle_intr uart_intr_reason uart_drain drain_loop
    rxfifo_putchar rxfifo_getchar uart_read read_register flush
script_runs = (refl, refl, refl)

fine_stdio : is_success (started fine false (some stdio) []).0 ≡ true
unfolding uart_set_backend choose_tty
fine_stdio = refl

uart_run-IsSound_example : IsSound (uart_run (started fine false (some stdio) []).2 script)
uart_run-IsSound_example = uart_run-IsSound fine false (some stdio) [] script fine_stdio

uart_run-IsLineRight_example : IsLineRight (uart_run (started fine false (some stdio) []).2 script)
uart_run-IsLineRight_example = uart_run-IsLineRight fine false (some stdio) [] script

normal-IsTransferring : IsTransferring normal
normal-IsTransferring = record {
  flowing = line_in-IsFlowing;
  has_tty = refl;
  dlab = refl;
  loopback = refl;
}

abbrev exchange : List Transfer
exchange = take ∷ send 2 ∷ input (10 ∷ []) ∷ ready ∷ status ∷ take ∷ take ∷ []

transfer_lem_example :
    let t = transfer normal exchange in
    (received normal exchange ++ backlog t ≡ 7 ∷ 8 ∷ 9 ∷ 10 ∷ []) × (t.port.written ≡ 1 ∷ 2 ∷ [])
transfer_lem_example = transfer_lem normal exchange normal-IsTransferring

overrun_lem_example :
    let t = uart_write full 0 0x55 in
    let (reg, u) = uart_read t 5 in
    (t.port ≡ full.port) × (test_bit reg 1 ≡ true) × (test_bit (uart_read u 5).0 1 ≡ false)
overrun_lem_example = overrun_lem full 0x55 refl refl refl
