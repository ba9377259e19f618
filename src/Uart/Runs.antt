-- ===== src/Uart/Runs.antt =====
-- Runs of the serial port from `uart_init` on: the accesses of the guest, the event for readable
-- input and the bytes that arrive at the terminal (src/uart_emul.c).
use xhyve_manager.Base.{
  ℕ, ◌%◌, ◌<◌, ◌≡◌, refl, Bool, true, Option, none, some, List, [], ◌∷◌, ◌++◌, arith, inl, inr,
  Bool-cases,
}
use xhyve_manager.Base.Bits.{has_bit}
use xhyve_manager.Base.Int.{ℤ}
use xhyve_manager.Uart.Fifo.{drain_loop, rxfifo_reset}
use xhyve_manager.Uart.Device.{
  Uart, uart_intr_reason, uart_toggle_intr, uart_reset, uart_init, uart_drain, uart_write,
  uart_read,
}
use xhyve_manager.Uart.Backend.{Backend, Answers, is_success, uart_set_backend}
use xhyve_manager.Uart.Invariant.{
  IsSound, IsLineRight, init-IsSound, uart_write-IsSound, uart_read-IsSound, uart_drain-IsSound,
}

pub data Op : Type 0 where
  write : ℕ → ℕ → Op
  read : ℕ → Op
  event : Op
  arrive : List ℕ → Op

-- The value of a write is a `uint8_t`.
unfoldable pub step : Uart → Op → Uart
step s (write offset value) = uart_write s offset (value % 256)
step s (read offset) = (uart_read s offset).1
step s event = uart_drain s
step s (arrive bytes) = record s { port = record s.port { pending = s.port.pending ++ bytes } }

unfoldable pub uart_run : Uart → List Op → Uart
uart_run s [] = s
uart_run s (op ∷ ops) = uart_run (step s op) ops

step-IsSound : (s : Uart) (op : Op) → IsSound s → IsSound (step s op)
unfolding step
step-IsSound s (write offset value) v = uart_write-IsSound s offset (value % 256) (omega arith) v
step-IsSound s (read offset) v = uart_read-IsSound s offset v
step-IsSound s event v = uart_drain-IsSound s v
step-IsSound s (arrive bytes) v = ground (arith, v.flowing)

uart_run-IsSound_from : (s : Uart) (ops : List Op) → IsSound s → IsSound (uart_run s ops)
unfolding uart_run
uart_run-IsSound_from s [] v = v
uart_run-IsSound_from s (op ∷ ops) v = uart_run-IsSound_from (step s op) ops (step-IsSound s op v)

toggle-IsLineRight : (s : Uart) → IsLineRight (uart_toggle_intr s)
unfolding uart_toggle_intr uart_intr_reason
toggle-IsLineRight s = refl

write-IsLineRight : (s : Uart) (offset value : ℕ) → IsLineRight (uart_write s offset value)
unfolding uart_write
write-IsLineRight s offset value = toggle-IsLineRight _

read-IsLineRight : (s : Uart) (offset : ℕ) → IsLineRight (uart_read s offset).1
unfolding uart_read
read-IsLineRight s offset = toggle-IsLineRight _

drain-IsLineRight : (s : Uart) → IsLineRight s → IsLineRight (uart_drain s)
unfolding uart_drain uart_intr_reason
drain-IsLineRight s r = elim (Bool-cases (has_bit s.mcr 4)) [
  | inl looped ↦ rw looped r
  | inr open_ ↦ rw open_ (toggle-IsLineRight (record s { port = drain_loop s.port s.port.pending }))
]

step-IsLineRight : (s : Uart) (op : Op) → IsLineRight s → IsLineRight (step s op)
unfolding step uart_intr_reason
step-IsLineRight s (write offset value) r = write-IsLineRight s offset (value % 256)
step-IsLineRight s (read offset) r = read-IsLineRight s offset
step-IsLineRight s event r = drain-IsLineRight s r
step-IsLineRight s (arrive bytes) r = r

uart_run-IsLineRight_from :
    (s : Uart) (ops : List Op) → IsLineRight s → IsLineRight (uart_run s ops)
unfolding uart_run
uart_run-IsLineRight_from s [] r = r
uart_run-IsLineRight_from s (op ∷ ops) r =
    uart_run-IsLineRight_from (step s op) ops (step-IsLineRight s op r)

-- A terminal that is opened on a port with room in its FIFO keeps it sound, unless the host fails.
set_backend-IsSound :
    (a : Answers) (uart_stdio : Bool) (s : Uart) (b : Option Backend)
    → IsSound s
    → s.port.fifo.num < s.port.fifo.size
    → is_success (uart_set_backend a uart_stdio s b).0 ≡ true
    → IsSound (uart_set_backend a uart_stdio s b).2
unfolding uart_set_backend
set_backend-IsSound a uart_stdio s none v room done = v
set_backend-IsSound a uart_stdio s (some b) v room done = ground (arith, v.flowing)

set_backend-IsLineRight :
    (a : Answers) (uart_stdio : Bool) (s : Uart) (b : Option Backend)
    → IsLineRight s
    → IsLineRight (uart_set_backend a uart_stdio s b).2
unfolding uart_set_backend uart_intr_reason
set_backend-IsLineRight a uart_stdio s none r = r
set_backend-IsLineRight a uart_stdio s (some b) r = ground arith

-- The port after `uart_init` and `uart_set_backend`.
abbrev pub started : Answers → Bool → Option Backend → List ℕ → ℤ × Bool × Uart
started a uart_stdio b input = uart_set_backend a uart_stdio (uart_init input) b

init-room : (input : List ℕ) → (uart_init input).port.fifo.num < (uart_init input).port.fifo.size
unfolding uart_init uart_reset rxfifo_reset
init-room input = ground arith

init-IsLineRight : (input : List ℕ) → IsLineRight (uart_init input)
unfolding uart_init uart_reset rxfifo_reset uart_intr_reason
init-IsLineRight input = refl

-- When the backend of a new port could be set, every sequence of accesses of any bytes, of events
-- and of arriving input keeps its registers, its FIFO and the event of its terminal sound.
pub uart_run-IsSound :
    (a : Answers) (uart_stdio : Bool) (b : Option Backend) (input : List ℕ) (ops : List Op)
    → is_success (started a uart_stdio b input).0 ≡ true
    → IsSound (uart_run (started a uart_stdio b input).2 ops)
uart_run-IsSound a uart_stdio b input ops done = uart_run-IsSound_from _ ops (
    set_backend-IsSound a uart_stdio (uart_init input) b (init-IsSound input) (init-room input)
      done)

-- Whatever the backend and after any such sequence, the interrupt line is asserted exactly when
-- `uart_intr_reason` has a reason to give.
pub uart_run-IsLineRight :
    (a : Answers) (uart_stdio : Bool) (b : Option Backend) (input : List ℕ) (ops : List Op)
    → IsLineRight (uart_run (started a uart_stdio b input).2 ops)
uart_run-IsLineRight a uart_stdio b input ops =
    uart_run-IsLineRight_from _ ops
      (set_backend-IsLineRight a uart_stdio (uart_init input) b (init-IsLineRight input))
