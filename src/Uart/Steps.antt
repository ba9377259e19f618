-- ===== src/Uart/Steps.antt =====
-- What each step of the two streams carries over (src/uart_emul.c).
use xhyve_manager.Base.{
  ℕ, ◌%◌, ◌≡◌, refl, sym, ap, ◌∙◌, Option, none, some, List, [], ◌∷◌, ◌++◌, arith, inl, inr, ltb,
  Bool-cases,
}
use mathlib.Core.List.{append_assoc, append-nil}
use xhyve_manager.Uart.Fifo.{Port, rxfifo_putchar, rxfifo_getchar, drain_loop}
use xhyve_manager.Uart.Queue.{IsValid, contents, dequeue, getchar_refines}
use xhyve_manager.Uart.Flow.{IsFlowing, getchar-IsFlowing, drain_loop-Drained}
use xhyve_manager.Uart.Device.{
  Uart, uart_toggle_intr, uart_drain, write_data, write_register, uart_write, read_iir, read_lsr,
  read_register, uart_read,
}
use xhyve_manager.Uart.Runs.{step}
use xhyve_manager.Uart.Transfer.{
  Transfer, take, send, reason, status, ready, input, op_of, taken, arriving, sending, backlog,
  IsTransferring,
}

-- What one step carries over.
pub record Carried (s : Uart) (got came gone : List ℕ) (t : Uart) : Type 0 where
  pub next : IsTransferring t
  pub inward : got ++ backlog t ≡ backlog s ++ came
  pub outward : t.port.written ≡ s.port.written ++ gone

abbrev front : Option ℕ → List ℕ → List ℕ
front none q = q
front (some ch) q = ch ∷ q

front-append : (r : Option ℕ) (q rest : List ℕ) → front r (q ++ rest) ≡ front r q ++ rest
front-append none q rest = refl
front-append (some ch) q rest = refl

front-dequeue : (q : List ℕ) → front (dequeue q).0 (dequeue q).1 ≡ q
unfolding dequeue
front-dequeue [] = refl
front-dequeue (ch ∷ q) = refl

front-getchar :
    (p : Port)
    → IsValid p.fifo
    → front (rxfifo_getchar p).0 (contents (rxfifo_getchar p).1.fifo) ≡ contents p.fifo
front-getchar p v =
    ap (λ r. front r.0 r.1) (getchar_refines p v).0 ∙ front-dequeue (contents p.fifo)

written-putchar :
    (p : Port) (ch : ℕ)
    → let q = (rxfifo_putchar p ch).1 in (q.written ≡ p.written) × (q.opened ≡ p.opened)
unfolding rxfifo_putchar
written-putchar p ch = (ground arith, ground arith)

written-getchar :
    (p : Port)
    → let q = (rxfifo_getchar p).1 in
      (q.written ≡ p.written) × (q.opened ≡ p.opened) × (q.pending ≡ p.pending)
unfolding rxfifo_getchar
written-getchar p = (ground arith, ground arith, ground arith)

written-drain_loop :
    (xs : List ℕ) (p : Port)
    → let q = drain_loop p xs in (q.written ≡ p.written) × (q.opened ≡ p.opened)
unfolding drain_loop
written-drain_loop [] p = (refl, refl)
written-drain_loop (ch ∷ xs) p =
    ground (arith, written-drain_loop xs (rxfifo_putchar p ch).1, written-putchar p ch)

-- A step that leaves the FIFO and the terminal alone.
unmoved :
    (s t : Uart)
    → IsTransferring s
    → t.port ≡ s.port
    → t.lcr ≡ s.lcr
    → t.mcr ≡ s.mcr
    → Carried s [] [] [] t
unmoved s t v port lcr mcr = record {
  next = record {
    flowing = rw port v.flowing;
    has_tty = rw port v.has_tty;
    dlab = rw lcr v.dlab;
    loopback = rw mcr v.loopback;
  };
  inward = rw port (sym (append-nil (backlog s)));
  outward = rw port (sym (append-nil s.port.written));
}

-- What the steps do to the state, with a terminal, loopback off and the data register selected.
take_lem :
    (s : Uart)
    → IsTransferring s
    → let t = step s (op_of take) in
      (t.port ≡ (rxfifo_getchar s.port).1) × (t.lcr ≡ s.lcr) × (t.mcr ≡ s.mcr)
unfolding step op_of uart_read read_register uart_toggle_intr
take_lem s v = rw v.dlab (refl, refl, refl)

taken_lem :
    (s : Uart)
    → IsTransferring s
    → (rest : List ℕ) → taken s take ++ rest ≡ front (rxfifo_getchar s.port).0 rest
unfolding taken rxfifo_getchar uart_read read_register
taken_lem s v rest = elim (Bool-cases (ltb 0 s.port.fifo.num)) [
  | inl some_in ↦ rw (v.dlab, some_in) (ground arith)
  | inr empty ↦ rw (v.dlab, empty) refl
]

send_lem :
    (s : Uart) (value : ℕ)
    → IsTransferring s
    → let t = step s (op_of (send value)) in
      (t.port ≡ record s.port { written = s.port.written ++ value % 256 ∷ [] })
      × (t.lcr ≡ s.lcr)
      × (t.mcr ≡ s.mcr)
unfolding step op_of uart_write write_register write_data uart_toggle_intr
send_lem s value v = ground (arith, v.has_tty, v.loopback, v.dlab)

reason_lem :
    (s : Uart)
    → let t = step s (op_of reason) in (t.port ≡ s.port) × (t.lcr ≡ s.lcr) × (t.mcr ≡ s.mcr)
unfolding step op_of uart_read read_register read_iir uart_toggle_intr
reason_lem s = (ground arith, ground arith, ground arith)

status_lem :
    (s : Uart)
    → let t = step s (op_of status) in (t.port ≡ s.port) × (t.lcr ≡ s.lcr) × (t.mcr ≡ s.mcr)
unfolding step op_of uart_read read_register read_lsr uart_toggle_intr
status_lem s = (ground arith, ground arith, ground arith)

still :
    (s t : Uart)
    → IsTransferring s
    → IsFlowing t.port
    → t.port.opened ≡ s.port.opened
    → t.lcr ≡ s.lcr
    → t.mcr ≡ s.mcr
    → IsTransferring t
still s t v flowing opened lcr mcr = record {
  flowing = flowing;
  has_tty = opened ∙ v.has_tty;
  dlab = rw lcr v.dlab;
  loopback = rw mcr v.loopback;
}

take-Carried : (s : Uart) → IsTransferring s → Carried s (taken s take) [] [] (step s (op_of take))
take-Carried s v =
    let t = step s (op_of take) in
    let p = s.port in
    let (port, lcr, mcr) = take_lem s v in
    let (written, opened, pending) = written-getchar p in
    record {
      next = still s t v (rw port (getchar-IsFlowing p v.flowing)) (rw port opened) lcr mcr;
      inward = rw port (
          taken_lem s v _
          ∙ (front-append (rxfifo_getchar p).0 (contents (rxfifo_getchar p).1.fifo)
                (rxfifo_getchar p).1.pending
              ∙ rw (pending, front-getchar p v.flowing.valid) (sym (append-nil (backlog s)))));
      outward = rw port (written ∙ sym (append-nil p.written));
    }

send-Carried :
    (s : Uart) (value : ℕ)
    → IsTransferring s
    → Carried s [] [] (value % 256 ∷ []) (step s (op_of (send value)))
send-Carried s value v =
    let t = step s (op_of (send value)) in
    let (port, lcr, mcr) = send_lem s value v in
    record {
      next =
          still s t v (rw port (record { valid = v.flowing.valid; enabled = v.flowing.enabled }))
            (ap (λ p. p.opened) port) lcr mcr;
      inward = rw port (sym (append-nil (backlog s)));
      outward = ap (λ p. p.written) port;
    }

ready-Carried : (s : Uart) → IsTransferring s → Carried s [] [] [] (step s (op_of ready))
unfolding step op_of uart_drain uart_toggle_intr
ready-Carried s v =
    let d = drain_loop-Drained s.port.pending s.port v.flowing in
    let (written, opened) = written-drain_loop s.port.pending s.port in
    rw v.loopback (record {
      next = record {
        flowing = d.flowing;
        has_tty = opened ∙ v.has_tty;
        dlab = v.dlab;
        loopback = v.loopback;
      };
      inward = d.kept ∙ sym (append-nil (backlog s));
      outward = written ∙ sym (append-nil s.port.written);
    })

input-Carried :
    (s : Uart) (bytes : List ℕ)
    → IsTransferring s
    → Carried s [] bytes [] (step s (op_of (input bytes)))
unfolding step op_of
input-Carried s bytes v = record {
  next = record {
    flowing = record { valid = v.flowing.valid; enabled = v.flowing.enabled };
    has_tty = v.has_tty;
    dlab = v.dlab;
    loopback = v.loopback;
  };
  inward = sym (append_assoc (contents s.port.fifo) s.port.pending bytes);
  outward = sym (append-nil s.port.written);
}

pub step-Carried :
    (s : Uart) (t : Transfer)
    → IsTransferring s
    → Carried s (taken s t) (arriving t) (sending t) (step s (op_of t))
unfolding taken
step-Carried s take v = take-Carried s v
step-Carried s (send value) v = send-Carried s value v
step-Carried s reason v =
    let (port, lcr, mcr) = reason_lem s in unmoved s (step s (op_of reason)) v port lcr mcr
step-Carried s status v =
    let (port, lcr, mcr) = status_lem s in unmoved s (step s (op_of status)) v port lcr mcr
step-Carried s ready v = ready-Carried s v
step-Carried s (input bytes) v = input-Carried s bytes v
