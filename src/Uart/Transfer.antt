-- ===== src/Uart/Transfer.antt =====
-- The use of the serial port as two byte streams (src/uart_emul.c): the steps of a driver and of the
-- terminal, what they carry, and what is still to be read.
use xhyve_manager.Base.{ℕ, ◌%◌, ◌≡◌, true, false, List, [], ◌∷◌, ◌++◌, if◌then◌else◌, ltb}
use xhyve_manager.Base.Bits.{has_bit}
use xhyve_manager.Uart.Queue.{contents}
use xhyve_manager.Uart.Flow.{IsFlowing}
use xhyve_manager.Uart.Device.{Uart, uart_read}
use xhyve_manager.Uart.Runs.{Op, write, read, event, arrive, step}

-- What a driver does once it has set the port up: it takes a character, sends one, or reads the
-- interrupt reason or the line status; input arrives and its event comes at any time.
pub data Transfer : Type 0 where
  take : Transfer
  send : ℕ → Transfer
  reason : Transfer
  status : Transfer
  ready : Transfer
  input : List ℕ → Transfer

unfoldable pub op_of : Transfer → Op
op_of take = read 0
op_of (send value) = write 0 value
op_of reason = read 2
op_of status = read 5
op_of ready = event
op_of (input bytes) = arrive bytes

unfoldable pub transfer : Uart → List Transfer → Uart
transfer s [] = s
transfer s (t ∷ ts) = transfer (step s (op_of t)) ts

-- The character that a step gives to the guest: a read of an empty FIFO gives none.
unfoldable pub taken : Uart → Transfer → List ℕ
taken s take = if ltb 0 s.port.fifo.num then (uart_read s 0).0 ∷ [] else []
taken s (send value) = []
taken s reason = []
taken s status = []
taken s ready = []
taken s (input bytes) = []

unfoldable pub received : Uart → List Transfer → List ℕ
received s [] = []
received s (t ∷ ts) = taken s t ++ received (step s (op_of t)) ts

abbrev pub arriving : Transfer → List ℕ
arriving take = []
arriving (send value) = []
arriving reason = []
arriving status = []
arriving ready = []
arriving (input bytes) = bytes

abbrev pub sending : Transfer → List ℕ
sending take = []
sending (send value) = value % 256 ∷ []
sending reason = []
sending status = []
sending ready = []
sending (input bytes) = []

abbrev pub arrived : List Transfer → List ℕ
arrived [] = []
arrived (t ∷ ts) = arriving t ++ arrived ts

abbrev pub sent : List Transfer → List ℕ
sent [] = []
sent (t ∷ ts) = sending t ++ sent ts

-- The input that the guest has not read yet.
abbrev pub backlog : Uart → List ℕ
backlog s = contents s.port.fifo ++ s.port.pending

-- A terminal is there, the data register is selected, and loopback is off.
pub record IsTransferring (s : Uart) : Type 0 where
  pub flowing : IsFlowing s.port
  pub has_tty : s.port.opened ≡ true
  pub dlab : has_bit s.lcr 7 ≡ false
  pub loopback : has_bit s.mcr 4 ≡ false
