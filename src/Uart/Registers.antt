-- ===== src/Uart/Registers.antt =====
-- The line status of the serial port and the loopback of data (src/uart_emul.c).
use xhyve_manager.Base.{
  ℕ, ◌^◌, ◌<◌, ◌≡◌, refl, ap, ◌∙◌, true, false, ◌||◌, [], ◌∷◌, ◌++◌, arith, inl, inr, if◌then◌else◌,
  ltb, ◌==◌, Bool-cases, bit_or,
}
use xhyve_manager.Base.Bits.{has_bit, test_bit, test_bit-bit_or, test_bit-clear_bit, test_bit-pow}
use xhyve_manager.Uart.Fifo.{Fifo, rxfifo_putchar, rxfifo_getchar}
use xhyve_manager.Uart.Queue.{
  IsValid, contents, ring_from, contents-putchar, dequeue, getchar_refines, putchar_refines,
}
use xhyve_manager.Uart.Device.{
  Uart, uart_toggle_intr, write_data, write_register, uart_write, read_lsr, read_register,
  uart_read, or_minus_one,
}
use xhyve_manager.Uart.Invariant.{IsSound}

-- The bits of the line status that a read gives and leaves.
status_bits :
    (s : Uart) (i : ℕ)
    → i < 8
    → test_bit (read_lsr s).0 i
      ≡ (if i == 0 then ltb 0 s.port.fifo.num else test_bit s.lsr i || test_bit 0x60 i)
unfolding read_lsr
status_bits s i below = elim (Bool-cases (ltb 0 s.port.fifo.num)) [
  | inl some_in ↦ rw some_in (
      ground (
        arith,
        test_bit-bit_or (bit_or s.lsr 0x60) (2 ^ 0) i,
        test_bit-bit_or s.lsr 0x60 i,
        test_bit-pow 0 i,
      ))
  | inr empty ↦
      rw empty
        (ground (arith, test_bit-clear_bit 8 (bit_or s.lsr 0x60) 0 i, test_bit-bit_or s.lsr 0x60 i))
]

status_after : (s : Uart) → test_bit (read_lsr s).1.lsr 1 ≡ false
unfolding read_lsr
status_after s = test_bit-clear_bit 8 _ 1 1 (omega arith) (omega arith)

read_status :
    (s : Uart)
    → let t = (uart_read s 5).1 in
      ((uart_read s 5).0 ≡ (read_lsr s).0)
      × (t.lsr ≡ (read_lsr s).1.lsr)
      × (t.port ≡ s.port)
      × (t.msr ≡ s.msr)
unfolding uart_read read_register read_lsr uart_toggle_intr
read_status s = (ground arith, ground arith, ground arith, ground arith)

-- A read of the line status shows whether a character waits and whether one was lost, and that the
-- transmitter is empty; it ends the report of a lost character and changes neither the FIFO nor the
-- modem status.
pub read_lsr_lem :
    (s : Uart)
    → let (reg, t) = uart_read s 5 in
      (test_bit reg 0 ≡ ltb 0 s.port.fifo.num)
      × (test_bit reg 1 ≡ test_bit s.lsr 1)
      × (test_bit reg 5 ≡ true)
      × (test_bit reg 6 ≡ true)
      × (test_bit t.lsr 1 ≡ false)
      × (t.port ≡ s.port)
      × (t.msr ≡ s.msr)
read_lsr_lem s =
    let (reg, lsr, port, msr) = read_status s in
    let bit : (i : ℕ) → test_bit (uart_read s 5).0 i ≡ test_bit (read_lsr s).0 i =
      λ i. ap (λ x. test_bit x i) reg in
    (
      bit 0 ∙ status_bits s 0 (omega arith),
      bit 1 ∙ (status_bits s 1 (omega arith) ∙ ground arith),
      bit 5 ∙ (status_bits s 5 (omega arith) ∙ ground arith),
      bit 6 ∙ (status_bits s 6 (omega arith) ∙ ground arith),
      ap (λ x. test_bit x 1) lsr ∙ status_after s,
      port,
      msr,
    )

-- A write to and a read from the data register, with the divisor latch closed.
write_looped :
    (s : Uart) (value : ℕ)
    → has_bit s.lcr 7 ≡ false
    → has_bit s.mcr 4 ≡ true
    → let (taken, p) = rxfifo_putchar s.port value in
      let t = uart_write s 0 value in
      (t.port ≡ p) × (t.lcr ≡ s.lcr) × (t.lsr ≡ (if taken then s.lsr else bit_or s.lsr 2))
unfolding uart_write write_register write_data uart_toggle_intr
write_looped s value dlab loop = rw (dlab, loop) (ground arith)

read_data :
    (s : Uart)
    → has_bit s.lcr 7 ≡ false
    → let (ch, p) = rxfifo_getchar s.port in
      ((uart_read s 0).0 ≡ or_minus_one ch) × ((uart_read s 0).1.port ≡ p)
unfolding uart_read read_register uart_toggle_intr
read_data s dlab = rw dlab (refl, refl)

nothing_in : (f : Fifo) → f.num ≡ 0 → contents f ≡ []
nothing_in f none_in = ap (ring_from f.buf f.size f.rindex) none_in

-- A byte written in loopback to an empty FIFO is the one that is read next, and the FIFO is empty
-- again. The conditions are that the port is sound and its divisor latch closed.
pub loopback_lem :
    (s : Uart) (value : ℕ)
    → IsSound s
    → has_bit s.lcr 7 ≡ false
    → has_bit s.mcr 4 ≡ true
    → s.port.fifo.num ≡ 0
    → let (reg, t) = uart_read (uart_write s 0 value) 0 in
      (reg ≡ value) × (contents t.port.fifo ≡ [])
unfolding dequeue
loopback_lem s value v dlab loop none_in =
    let t = uart_write s 0 value in
    let f = v.flowing.valid in
    let (port, lcr, lsr) = write_looped s value dlab loop in
    let (reg, after) = read_data t (rw lcr dlab) in
    let stored : contents t.port.fifo ≡ value ∷ [] = rw port (
      contents-putchar s.port value f (omega (arith, f.size_pos))
      ∙ ap (λ l. l ++ value ∷ []) (nothing_in s.port.fifo none_in)) in
    let w : IsValid t.port.fifo = rw port (putchar_refines s.port value f).1 in
    let out = (getchar_refines t.port w).0 ∙ ap dequeue stored in
    (reg ∙ ap (λ r. or_minus_one r.0) out, rw after (ap (λ r. r.1) out))

-- A byte written in loopback to a full FIFO is lost, and the line status says so at the next read
-- and not at the one after it.
pub overrun_lem :
    (s : Uart) (value : ℕ)
    → has_bit s.lcr 7 ≡ false
    → has_bit s.mcr 4 ≡ true
    → s.port.fifo.num ≡ s.port.fifo.size
    → let t = uart_write s 0 value in
      let (reg, u) = uart_read t 5 in
      (t.port ≡ s.port) × (test_bit reg 1 ≡ true) × (test_bit (uart_read u 5).0 1 ≡ false)
unfolding rxfifo_putchar
overrun_lem s value dlab loop full =
    let t = uart_write s 0 value in
    let (port, lcr, lsr) = write_looped s value dlab loop in
    let shut : ltb s.port.fifo.num s.port.fifo.size ≡ false = ground arith in
    let (ready, lost, empty, idle, cleared, same, modem) = read_lsr_lem t in
    let (ready_2, lost_2, empty_2, idle_2, cleared_2, same_2, modem_2) =
      read_lsr_lem (uart_read t 5).1 in
    (
      port ∙ rw shut refl,
      lost
          ∙ (ap (λ x. test_bit x 1) (lsr ∙ rw shut refl)
              ∙ (test_bit-bit_or s.lsr 2 1 ∙ ground arith)),
      lost_2 ∙ cleared,
    )
