-- ===== src/Uart/Device.antt =====
-- The registers of the serial port and its interrupt line (src/uart_emul.c). The lock is held
-- throughout each call, so a call is one step.
use xhyve_manager.Base.{
  ℕ, ◌/◌, ◌%◌, ◌^◌, Bool, true, false, not, ◌&&◌, Option, none, some, List, [], ◌∷◌, ◌++◌, ◌==◌,
  ltb, if◌then◌else◌, bit_and, bit_or, bit_xor, replicate,
}
use xhyve_manager.Base.Bits.{has_bit, clear_bit}
use xhyve_manager.Uart.Fifo.{Port, rxfifo_reset, rxfifo_putchar, rxfifo_getchar, drain_loop}

-- `struct uart_softc`, less the lock and the callbacks: `asserted` is what the last call of
-- `intr_assert` or `intr_deassert` set. The register `data` is never used.
pub record Uart : Type 0 where
  pub ier : ℕ
  pub lcr : ℕ
  pub mcr : ℕ
  pub lsr : ℕ
  pub msr : ℕ
  pub fcr : ℕ
  pub scr : ℕ
  pub dll : ℕ
  pub dlh : ℕ
  pub port : Port
  pub thre_int_pending : Bool
  pub asserted : Bool

-- The values that `uart_intr_reason` returns: `IIR_RLS`, `IIR_RXTOUT`, `IIR_TXRDY`, `IIR_MLSC` and
-- `IIR_NOPEND`.
abbrev pub iir_rls : ℕ
iir_rls = 6

abbrev pub iir_rxtout : ℕ
iir_rxtout = 0xc

abbrev pub iir_txrdy : ℕ
iir_txrdy = 2

abbrev pub iir_mlsc : ℕ
iir_mlsc = 0

abbrev pub iir_nopend : ℕ
iir_nopend = 1

-- `(x & mask) != 0`.
abbrev pub has_any : ℕ → ℕ → Bool
has_any x mask = not (bit_and x mask == 0)

-- `IER_ERXRDY`, `IER_ETXRDY`, `IER_ERLS` and `IER_EMSC` are the bits 0 to 3, `LSR_OE` the bit 1.
unfoldable pub uart_intr_reason : Uart → ℕ
uart_intr_reason s =
    if has_bit s.lsr 1 && has_bit s.ier 2
    then iir_rls
    else if ltb 0 s.port.fifo.num && has_bit s.ier 0
    then iir_rxtout
    else if s.thre_int_pending && has_bit s.ier 1
    then iir_txrdy
    else if has_any s.msr 0x0f && has_bit s.ier 3
    then iir_mlsc
    else iir_nopend

unfoldable pub uart_toggle_intr : Uart → Uart
uart_toggle_intr s = record s { asserted = not (uart_intr_reason s == iir_nopend) }

-- `DEFAULT_RCLK / DEFAULT_BAUD / 16`, in 16 bits.
abbrev pub divisor : ℕ
divisor = 1843200 / 9600 / 16

unfoldable pub uart_reset : Uart → Uart
uart_reset s = record s {
  dll = divisor % 256;
  dlh = divisor / 2 ^ 16;
  port = rxfifo_reset s.port 1;
}

-- `uart_init`: `calloc`, then a reset. The terminal has bytes `input` to give.
unfoldable pub uart_init : List ℕ → Uart
unfolding uart_reset
uart_init input = uart_reset (record {
  ier = 0;
  lcr = 0;
  mcr = 0;
  lsr = 0;
  msr = 0;
  fcr = 0;
  scr = 0;
  dll = 0;
  dlh = 0;
  port = record {
    fifo = record { buf = replicate 16 0; rindex = 0; windex = 0; num = 0; size = 0 };
    opened = false;
    pending = input;
    written = [];
    listening = false;
  };
  thre_int_pending = false;
  asserted = false;
})

-- `MCR_LOOPBACK` is the bit 4. In loopback a byte of input is read and dropped.
abbrev drop_one : List ℕ → List ℕ
drop_one [] = []
drop_one (ch ∷ rest) = rest

unfoldable pub uart_drain : Uart → Uart
unfolding uart_toggle_intr
uart_drain s =
    if has_bit s.mcr 4
    then record s { port = record s.port { pending = drop_one s.port.pending } }
    else uart_toggle_intr (record s { port = drain_loop s.port s.port.pending })

-- `(x & mask) ^ (y & mask)` as a test.
abbrev pub differs : ℕ → ℕ → ℕ → Bool
differs x y mask = not (bit_xor (bit_and x mask) (bit_and y mask) == 0)

-- The case `REG_DATA` of `uart_write`.
unfoldable pub write_data : Uart → ℕ → Uart
write_data s value =
    let t =
      if has_bit s.mcr 4
      then (let (taken, p) = rxfifo_putchar s.port value in
          if taken then record s { port = p } else record s { port = p; lsr = bit_or s.lsr 2 })
      else if s.port.opened
      then record s { port = record s.port { written = s.port.written ++ value ∷ [] } }
      else s in
    record t { thre_int_pending = true }

-- The case `REG_FCR`. `FCR_ENABLE` and `FCR_RCV_RST` are the bits 0 and 1; the mask of the last line
-- is `FCR_ENABLE | FCR_DMA | FCR_RX_MASK`.
unfoldable pub write_fcr : Uart → ℕ → Uart
write_fcr s value =
    let t =
      if differs s.fcr value 1
      then record s { port = rxfifo_reset s.port (if has_bit value 0 then 16 else 1) }
      else s in
    if not (has_bit value 0)
    then record t { fcr = 0 }
    else (let u = if has_bit value 1 then record t { port = rxfifo_reset t.port 16 } else t in
        record u { fcr = bit_and value 0xc9 })

-- What loopback reflects into the modem status: `MCR_RTS`, `MCR_DTR`, `MCR_OUT1` and `MCR_OUT2` are
-- the bits 1, 0, 2 and 3; `MSR_CTS`, `MSR_DSR`, `MSR_RI` and `MSR_DCD` the bits 4, 5, 6 and 7.
unfoldable pub reflected : ℕ → ℕ
reflected mcr =
    let a : ℕ = if has_bit mcr 1 then 0x10 else 0 in
    let b = if has_bit mcr 0 then bit_or a 0x20 else a in
    let c = if has_bit mcr 2 then bit_or b 0x40 else b in
    let d = if has_bit mcr 3 then bit_or c 0x80 else c in if has_bit mcr 4 then d else 0

-- The delta bits that a new modem status `msr` adds to the old one: `MSR_DCTS`, `MSR_DDSR`,
-- `MSR_DDCD` and `MSR_TERI` are 1, 2, 8 and 4.
unfoldable pub with_deltas : ℕ → ℕ → ℕ
with_deltas old msr =
    let a = if differs msr old 0x10 then bit_or old 1 else old in
    let b = if differs msr a 0x20 then bit_or a 2 else a in
    let c = if differs msr b 0x80 then bit_or b 8 else b in
    if has_bit c 6 && not (has_bit msr 6) then bit_or c 4 else c

-- The case `REG_MCR`.
unfoldable pub write_mcr : Uart → ℕ → Uart
unfolding reflected with_deltas
write_mcr s value =
    let mcr = bit_and value 0x1f in
    let msr = reflected mcr in
    record s { mcr = mcr; msr = bit_or (bit_and (with_deltas s.msr msr) 0x0f) msr }

-- The `switch` of `uart_write`. LSR and MSR, 5 and 6, are not written.
unfoldable pub write_register : Uart → ℕ → ℕ → Uart
unfolding write_data write_fcr write_mcr
write_register s offset value =
    if offset == 0
    then write_data s value
    else if offset == 1
    then record s { ier = bit_and value 0x0f }
    else if offset == 2
    then write_fcr s value
    else if offset == 3
    then record s { lcr = value }
    else if offset == 4
    then write_mcr s value
    else if offset == 7
    then record s { scr = value }
    else s

-- `LCR_DLAB` is the bit 7.
unfoldable pub uart_write : Uart → ℕ → ℕ → Uart
unfolding write_register uart_toggle_intr
uart_write s offset value = uart_toggle_intr (
    if has_bit s.lcr 7 && offset == 0
    then record s { dll = value }
    else if has_bit s.lcr 7 && offset == 1
    then record s { dlh = value }
    else write_register s offset value)

-- The case `REG_IIR`: `IIR_FIFO_MASK` is 0xc0.
unfoldable pub read_iir : Uart → ℕ × Uart
read_iir s =
    let reason = uart_intr_reason s in
    let iir : ℕ = if has_bit s.fcr 0 then 0xc0 else 0 in
    (bit_or iir reason, if reason == iir_txrdy then record s { thre_int_pending = false } else s)

-- The case `REG_LSR`: `LSR_TEMT | LSR_THRE` is 0x60, `LSR_RXRDY` and `LSR_OE` the bits 0 and 1.
unfoldable pub read_lsr : Uart → ℕ × Uart
read_lsr s =
    let ready = bit_or s.lsr 0x60 in
    let lsr = if ltb 0 s.port.fifo.num then bit_or ready 1 else clear_bit 8 ready 0 in
    (lsr, record s { lsr = clear_bit 8 lsr 1 })

-- The cast of `rxfifo_getchar`'s result to a byte: -1 is 0xff, and a character is a byte already.
abbrev pub or_minus_one : Option ℕ → ℕ
or_minus_one none = 0xff
or_minus_one (some ch) = ch

-- The `switch` of `uart_read`.
unfoldable pub read_register : Uart → ℕ → ℕ × Uart
unfolding read_iir read_lsr
read_register s offset =
    if offset == 0
    then (let (ch, p) = rxfifo_getchar s.port in (or_minus_one ch, record s { port = p }))
    else if offset == 1
    then (s.ier, s)
    else if offset == 2
    then read_iir s
    else if offset == 3
    then (s.lcr, s)
    else if offset == 4
    then (s.mcr, s)
    else if offset == 5
    then read_lsr s
    else if offset == 6
    then (s.msr, record s { msr = bit_and s.msr 0xf0 })
    else if offset == 7
    then (s.scr, s)
    else (0xff, s)

unfoldable pub uart_read : Uart → ℕ → ℕ × Uart
unfolding read_register uart_toggle_intr
uart_read s offset =
    let (reg, t) =
      if has_bit s.lcr 7 && offset == 0
      then (s.dll, s)
      else if has_bit s.lcr 7 && offset == 1
      then (s.dlh, s)
      else read_register s offset in
    (reg, uart_toggle_intr t)
