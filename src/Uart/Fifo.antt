-- ===== src/Uart/Fifo.antt =====
-- The receive FIFO of the serial port (src/uart_emul.c). The terminal behind the port is part of the
-- state: the bytes that wait to be read from it, those written to it, and whether the event for
-- readable input is enabled.
use xhyve_manager.Base.{
  ℕ, zero, suc, ◌+◌, ◌-◌, ◌%◌, Bool, true, false, not, ◌&&◌, Option, none, some, List, [], ◌∷◌, ltb,
  if◌then◌else◌, get_or, set, replicate, length, drop,
}

-- `struct fifo`. The indices and counts are an `int` that never is negative.
pub record Fifo : Type 0 where
  pub buf : List ℕ
  pub rindex : ℕ
  pub windex : ℕ
  pub num : ℕ
  pub size : ℕ

-- The FIFO and the terminal of a `struct uart_softc`: `opened` is `tty.opened`.
pub record Port : Type 0 where
  pub fifo : Fifo
  pub opened : Bool
  pub pending : List ℕ
  pub written : List ℕ
  pub listening : Bool

-- The loop of `rxfifo_reset`: reads of 32 bytes, until one is short. The fuel is at least the length
-- of what is pending, and each turn takes 32 bytes or is the last.
unfoldable pub flush : ℕ → List ℕ → List ℕ
flush zero pending = pending
flush (suc fuel) pending =
    let rest = flush fuel (drop 32 pending) in if not (ltb (length pending) 32) then rest else []

unfoldable pub rxfifo_reset : Port → ℕ → Port
unfolding flush
rxfifo_reset p size =
    let q = record p {
      fifo = record { buf = replicate 16 0; rindex = 0; windex = 0; num = 0; size = size };
    } in
    if q.opened
    then record q { pending = flush (suc (length q.pending)) q.pending; listening = true }
    else q

abbrev pub rxfifo_available : Port → Bool
rxfifo_available p = ltb p.fifo.num p.fifo.size

-- The result is whether the character was taken: 0 or -1.
unfoldable pub rxfifo_putchar : Port → ℕ → Bool × Port
rxfifo_putchar p ch =
    let f = p.fifo in
    if ltb f.num f.size
    then (let q = record p {
      fifo = record f {
        buf = set f.buf f.windex ch;
        windex = (f.windex + 1) % f.size;
        num = f.num + 1;
      };
    } in
        if not (rxfifo_available q) && q.opened
        then (true, record q { listening = false })
        else (true, q))
    else (false, p)

-- The result is the character, `none` for -1.
unfoldable pub rxfifo_getchar : Port → Option ℕ × Port
rxfifo_getchar p =
    let f = p.fifo in
    if ltb 0 f.num
    then (let wasfull = not (rxfifo_available p) in
        let q = record p {
          fifo = record f { rindex = (f.rindex + 1) % f.size; num = f.num - 1 };
        } in
        if wasfull && q.opened
        then (some (get_or f.buf f.rindex 0), record q { listening = true })
        else (some (get_or f.buf f.rindex 0), q))
    else (none, p)

-- The loop of `uart_drain`: the terminal is read only while there is room.
unfoldable pub drain_loop : Port → List ℕ → Port
drain_loop p [] = record p { pending = [] }
drain_loop p (ch ∷ rest) =
    let more = drain_loop (rxfifo_putchar p ch).1 rest in
    if rxfifo_available p then more else record p { pending = ch ∷ rest }
