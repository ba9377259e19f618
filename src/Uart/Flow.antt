-- ===== src/Uart/Flow.antt =====
-- The terminal and the receive FIFO (`rxfifo_reset`, `uart_drain` of src/uart_emul.c), and the event
-- for readable input.
use native.Mathlib.Decide.{dec_lt}
use xhyve_manager.Base.{
  ℕ, zero, suc, ◌≤◌, ◌<◌, ◌≡◌, ◌⊎◌, inl, inr, refl, ap, ◌∙◌, true, false, List, [], ◌∷◌, ◌++◌,
  arith, length, drop, length-drop, if◌then◌else◌, ltb,
}
use mathlib.Core.List.{append_assoc}
use xhyve_manager.Uart.Fifo.{
  Port, flush, rxfifo_reset, rxfifo_available, rxfifo_putchar, rxfifo_getchar, drain_loop,
}
use xhyve_manager.Uart.Queue.{IsValid, contents, putchar_refines, getchar_refines, contents-putchar}

-- With a terminal the event is enabled exactly while there is room.
pub record IsFlowing (p : Port) : Type 0 where
  pub valid : IsValid p.fifo
  pub enabled : p.opened ≡ true → p.listening ≡ ltb p.fifo.num p.fifo.size

-- The loop of `rxfifo_reset` ends and leaves nothing to read: its fuel is enough.
pub flush_lem : (fuel : ℕ) (xs : List ℕ) → length xs < fuel → flush fuel xs ≡ []
unfolding flush
flush_lem zero xs enough = absurd (omega arith)
flush_lem (suc fuel) xs enough = ground (arith, length-drop 32 xs, flush_lem fuel (drop 32 xs))

-- A reset empties the FIFO and what is pending on the terminal, and enables the event.
pub rxfifo_reset_lem :
    (p : Port) (size : ℕ)
    → 0 < size
    → size ≤ 16
    → let q = rxfifo_reset p size in
      IsFlowing q
      × (contents q.fifo ≡ [])
      × (q.fifo.size ≡ size)
      × (q.pending ≡ (if p.opened then [] else p.pending))
unfolding rxfifo_reset
rxfifo_reset_lem p size pos le =
    ground (arith, flush_lem (suc (length p.pending)) p.pending (omega arith))

pub modes-putchar :
    (p : Port) (ch : ℕ)
    → let q = (rxfifo_putchar p ch).1 in (q.fifo.size ≡ p.fifo.size) × (q.opened ≡ p.opened)
unfolding rxfifo_putchar
modes-putchar p ch = (ground arith, ground arith)

pub modes-getchar :
    (p : Port) → let q = (rxfifo_getchar p).1 in (q.fifo.size ≡ p.fifo.size) × (q.opened ≡ p.opened)
unfolding rxfifo_getchar
modes-getchar p = (ground arith, ground arith)

pub putchar-IsFlowing : (p : Port) (ch : ℕ) → IsFlowing p → IsFlowing (rxfifo_putchar p ch).1
putchar-IsFlowing p ch w = record {
  valid = (putchar_refines p ch w.valid).1;
  enabled = unfold rxfifo_putchar in ground (arith, w.enabled);
}

pub getchar-IsFlowing : (p : Port) → IsFlowing p → IsFlowing (rxfifo_getchar p).1
getchar-IsFlowing p w = record {
  valid = (getchar_refines p w.valid).1;
  enabled = unfold rxfifo_getchar in ground (arith, w.enabled, w.valid.num_le);
}

-- What `uart_drain` has done when its loop stops, started with `xs` to read.
pub record Drained (p : Port) (xs : List ℕ) (q : Port) : Type 0 where
  pub flowing : IsFlowing q
  pub kept : contents q.fifo ++ q.pending ≡ contents p.fifo ++ xs
  pub stops : (q.pending ≡ []) ⊎ (q.fifo.num ≡ q.fifo.size)
  pub same_size : q.fifo.size ≡ p.fifo.size

-- The loop of `uart_drain` loses and reorders no byte, and stops only when nothing is left to read
-- or the FIFO is full.
pub drain_loop-Drained : (xs : List ℕ) (p : Port) → IsFlowing p → Drained p xs (drain_loop p xs)
unfolding drain_loop
drain_loop-Drained [] p w = record {
  flowing = record { valid = w.valid; enabled = w.enabled };
  kept = refl;
  stops = inl refl;
  same_size = refl;
}
drain_loop-Drained (x ∷ xs) p w = elim (dec_lt p.fifo.num p.fifo.size) [
  | yes room ↦
      let q = (rxfifo_putchar p x).1 in
      let rest = drain_loop-Drained xs q (putchar-IsFlowing p x w) in
      let open_ : rxfifo_available p ≡ true = ground arith in
      rw open_ (record {
        flowing = rest.flowing;
        kept =
            rest.kept
            ∙ (ap (λ l. l ++ xs) (contents-putchar p x w.valid room)
                ∙ append_assoc (contents p.fifo) (x ∷ []) xs);
        stops = rest.stops;
        same_size = rest.same_size ∙ (modes-putchar p x).0;
      })
  | no full ↦
      let shut : rxfifo_available p ≡ false = ground arith in
      rw shut (record {
        flowing = record { valid = w.valid; enabled = w.enabled };
        kept = refl;
        stops = inr (omega (arith, w.valid.num_le));
        same_size = refl;
      })
]
