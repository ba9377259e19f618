-- ===== src/Uart/Stream.antt =====
-- The serial port as two byte streams (src/uart_emul.c).
use xhyve_manager.Base.{◌≡◌, sym, ap, ◌∙◌, List, [], ◌∷◌, ◌++◌}
use mathlib.Core.List.{append_assoc, append-nil}
use xhyve_manager.Uart.Device.{Uart}
use xhyve_manager.Uart.Runs.{step}
use xhyve_manager.Uart.Transfer.{
  Transfer, op_of, transfer, taken, received, arriving, sending, arrived, sent, backlog,
  IsTransferring,
}
use xhyve_manager.Uart.Steps.{step-Carried}

-- With a terminal, loopback off, the divisor latch closed, a valid FIFO and the terminal event enabled
-- exactly while the FIFO has room: for any order of data reads and writes, reads of the interrupt
-- reason and of the line status, arrivals of input and terminal events, the characters that the guest
-- reads, followed by those in the FIFO and at the terminal, are the ones that were there before and
-- those that arrived, in order and none lost or doubled; and the terminal is given the bytes that the
-- guest sent, in order.
pub transfer_lem :
    (s : Uart) (ts : List Transfer)
    → IsTransferring s
    → let t = transfer s ts in
      (received s ts ++ backlog t ≡ backlog s ++ arrived ts)
      × (t.port.written ≡ s.port.written ++ sent ts)
unfolding transfer received
transfer_lem s [] v = (sym (append-nil (backlog s)), sym (append-nil s.port.written))
transfer_lem s (t ∷ ts) v =
    let c = step-Carried s t v in
    let u = step s (op_of t) in
    let (inward, outward) = transfer_lem u ts c.next in
    (
      append_assoc (taken s t) (received u ts) _
          ∙ (ap (λ l. taken s t ++ l) inward
              ∙ (sym (append_assoc (taken s t) (backlog u) (arrived ts))
                  ∙ (ap (λ l. l ++ arrived ts) c.inward
                      ∙ append_assoc (backlog s) (arriving t) (arrived ts)))),
      outward
          ∙ (ap (λ l. l ++ sent ts) c.outward ∙ append_assoc s.port.written (sending t) (sent ts)),
    )
