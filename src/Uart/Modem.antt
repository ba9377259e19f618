-- ===== src/Uart/Modem.antt =====
-- The modem status of the serial port (src/uart_emul.c).
use xhyve_manager.Base.{
  ℕ, zero, suc, ◌<◌, ◌≡◌, refl, ap, ◌∙◌, Bool, true, false, not, ◌&&◌, ◌||◌, arith, if◌then◌else◌,
  bit_and, bit_or,
}
use mathlib.Core.Bool.{xor}
use xhyve_manager.Base.Bits.{
  has_bit, test_bit, has_bit-test_bit, test_bit-bit_and, test_bit-bit_or, test_bit-zero, bit_or-lt,
}
use xhyve_manager.Uart.Device.{
  Uart, uart_toggle_intr, differs, reflected, with_deltas, write_mcr, write_register, uart_write,
}
use xhyve_manager.Uart.Invariant.{IsSound, reflected-lt}
use xhyve_manager.Uart.Differs.{differs-bit}

-- `if (c) x |= m`.
or_if :
    (c : Bool) (x m i : ℕ)
    → test_bit (if c then bit_or x m else x) i ≡ (test_bit x i || (c && test_bit m i))
or_if true x m i = test_bit-bit_or x m i
or_if false x m i = ground arith

-- The lines that loopback turns round.
reflected_bits :
    (mcr i : ℕ)
    → test_bit (reflected mcr) i ≡ (
        has_bit mcr 4
        && (((has_bit mcr 1 && test_bit 0x10 i) || (has_bit mcr 0 && test_bit 0x20 i))
            || ((has_bit mcr 2 && test_bit 0x40 i) || (has_bit mcr 3 && test_bit 0x80 i))))
unfolding reflected
reflected_bits mcr i =
    let a : ℕ = if has_bit mcr 1 then 0x10 else 0 in
    let b = if has_bit mcr 0 then bit_or a 0x20 else a in
    let c = if has_bit mcr 2 then bit_or b 0x40 else b in
    ground (
      arith,
      test_bit-zero i,
      or_if (has_bit mcr 0) a 0x20 i,
      or_if (has_bit mcr 2) b 0x40 i,
      or_if (has_bit mcr 3) c 0x80 i,
    )

or_if-lt : (c : Bool) (x m : ℕ) → x < 256 → m < 256 → (if c then bit_or x m else x) < 256
or_if-lt true x m fx fm = bit_or-lt 8 x m fx fm
or_if-lt false x m fx fm = fx

low :
    (c : Bool) (x m i : ℕ)
    → test_bit m i ≡ false
    → test_bit (if c then bit_or x m else x) i ≡ test_bit x i
low c x m i off = ground (arith, or_if c x m i)

deltas_bits :
    (old msr i : ℕ)
    → old < 256
    → msr < 256
    → test_bit (with_deltas old msr) i ≡ (
        test_bit old i
        || (((xor (test_bit msr 4) (test_bit old 4) && test_bit 1 i)
              || (xor (test_bit msr 5) (test_bit old 5) && test_bit 2 i))
            || ((xor (test_bit msr 7) (test_bit old 7) && test_bit 8 i)
                || ((test_bit old 6 && not (test_bit msr 6)) && test_bit 4 i))))
unfolding with_deltas
deltas_bits old msr i fo fm =
    let cts = differs msr old 0x10 in
    let a = if cts then bit_or old 1 else old in
    let dsr = differs msr a 0x20 in
    let b = if dsr then bit_or a 2 else a in
    let dcd = differs msr b 0x80 in
    let c = if dcd then bit_or b 8 else b in
    let ri = has_bit c 6 && not (has_bit msr 6) in
    let fa = or_if-lt cts old 1 fo (omega arith) in
    let fb = or_if-lt dsr a 2 fa (omega arith) in
    let cts_lem : cts ≡ xor (test_bit msr 4) (test_bit old 4) = differs-bit 8 msr old 4 fm fo in
    let dsr_lem : dsr ≡ xor (test_bit msr 5) (test_bit old 5) =
      differs-bit 8 msr a 5 fm fa ∙ ap (xor (test_bit msr 5)) (low cts old 1 5 refl) in
    let dcd_lem : dcd ≡ xor (test_bit msr 7) (test_bit old 7) =
      differs-bit 8 msr b 7 fm fb
      ∙ ap (xor (test_bit msr 7)) (low dsr a 2 7 refl ∙ low cts old 1 7 refl) in
    let ri_lem : ri ≡ (test_bit old 6 && not (test_bit msr 6)) =
      rw
        (
          has_bit-test_bit c 6,
          has_bit-test_bit msr 6,
          low dcd b 8 6 refl,
          low dsr a 2 6 refl,
          low cts old 1 6 refl,
        )
        refl in
    ground (
      arith,
      or_if ri c 4 i,
      or_if dcd b 8 i,
      or_if dsr a 2 i,
      or_if cts old 1 i,
      cts_lem,
      dsr_lem,
      dcd_lem,
      ri_lem,
    )

-- The modem status after a write of `value` to the modem control register, bit by bit.
msr_bits :
    (s : Uart) (value i : ℕ)
    → let msr = reflected (bit_and value 0x1f) in
      test_bit (uart_write s 4 value).msr i
      ≡ ((test_bit (with_deltas s.msr msr) i && test_bit 0x0f i) || test_bit msr i)
unfolding uart_write write_register write_mcr uart_toggle_intr
msr_bits s value i =
    let msr = reflected (bit_and value 0x1f) in
    ground (
      arith,
      test_bit-bit_or (bit_and (with_deltas s.msr msr) 0x0f) msr i,
      test_bit-bit_and (with_deltas s.msr msr) 0x0f i,
    )

masked : (value k : ℕ) → test_bit 0x1f k ≡ true → has_bit (bit_and value 0x1f) k ≡ test_bit value k
masked value k kept =
    has_bit-test_bit (bit_and value 0x1f) k ∙ (test_bit-bit_and value 0x1f k ∙ ground arith)

line_bits :
    (value : ℕ)
    → let msr = reflected (bit_and value 0x1f) in
      let loop = test_bit value 4 in
      (test_bit msr 4 ≡ (loop && test_bit value 1))
      × (test_bit msr 5 ≡ (loop && test_bit value 0))
      × (test_bit msr 6 ≡ (loop && test_bit value 2))
      × (test_bit msr 7 ≡ (loop && test_bit value 3))
line_bits value =
    let mcr = bit_and value 0x1f in
    let b0 = masked value 0 refl in
    let b1 = masked value 1 refl in
    let b2 = masked value 2 refl in
    let b3 = masked value 3 refl in
    let b4 = masked value 4 refl in
    (
      reflected_bits mcr 4 ∙ ground arith,
      reflected_bits mcr 5 ∙ ground arith,
      reflected_bits mcr 6 ∙ ground arith,
      reflected_bits mcr 7 ∙ ground arith,
    )

-- Loopback reflects into the upper half only.
reflected-low : (mcr i : ℕ) → i < 4 → test_bit (reflected mcr) i ≡ false
reflected-low mcr zero below = reflected_bits mcr 0 ∙ ground arith
reflected-low mcr (suc zero) below = reflected_bits mcr 1 ∙ ground arith
reflected-low mcr (suc (suc zero)) below = reflected_bits mcr 2 ∙ ground arith
reflected-low mcr (suc (suc (suc zero))) below = reflected_bits mcr 3 ∙ ground arith
reflected-low mcr (suc (suc (suc (suc i)))) below = absurd (omega arith)

-- A line of the modem status is on when loopback is and the bit of modem control that it turns round
-- is; a delta bit stays on, and comes on when its line changes, for the ring indicator when it goes
-- off. The condition is that the port is sound.
pub write_mcr_lem :
    (s : Uart) (value : ℕ)
    → IsSound s
    → let now = (uart_write s 4 value).msr in
      let loop = test_bit value 4 in
      (test_bit now 4 ≡ (loop && test_bit value 1))
      × (test_bit now 5 ≡ (loop && test_bit value 0))
      × (test_bit now 6 ≡ (loop && test_bit value 2))
      × (test_bit now 7 ≡ (loop && test_bit value 3))
      × (test_bit now 0 ≡ (test_bit s.msr 0 || xor (test_bit now 4) (test_bit s.msr 4)))
      × (test_bit now 1 ≡ (test_bit s.msr 1 || xor (test_bit now 5) (test_bit s.msr 5)))
      × (test_bit now 2 ≡ (test_bit s.msr 2 || (test_bit s.msr 6 && not (test_bit now 6))))
      × (test_bit now 3 ≡ (test_bit s.msr 3 || xor (test_bit now 7) (test_bit s.msr 7)))
write_mcr_lem s value v =
    let mcr = bit_and value 0x1f in
    let msr = reflected mcr in
    let (cts, dsr, ri, dcd) = line_bits value in
    let above : (i : ℕ)
        → test_bit 0x0f i ≡ false
        → test_bit (uart_write s 4 value).msr i ≡ test_bit msr i =
      λ i off. msr_bits s value i ∙ ground arith in
    let delta : (i : ℕ)
        → i < 4
        → test_bit 0x0f i ≡ true
        → test_bit (uart_write s 4 value).msr i ≡ test_bit (with_deltas s.msr msr) i =
      λ i below on. msr_bits s value i ∙ ground (arith, reflected-low mcr i below) in
    let now4 = above 4 refl in
    let now5 = above 5 refl in
    let now6 = above 6 refl in
    let now7 = above 7 refl in
    let bits : (i : ℕ) → _ = λ i. deltas_bits s.msr msr i v.msr_lt (reflected-lt mcr) in
    (
      now4 ∙ cts,
      now5 ∙ dsr,
      now6 ∙ ri,
      now7 ∙ dcd,
      delta 0 (omega arith) refl
          ∙ (bits 0 ∙ ground (arith, ap (λ b. xor b (test_bit s.msr 4)) now4)),
      delta 1 (omega arith) refl
          ∙ (bits 1 ∙ ground (arith, ap (λ b. xor b (test_bit s.msr 5)) now5)),
      delta 2 (omega arith) refl ∙ (bits 2 ∙ ground arith),
      delta 3 (omega arith) refl
          ∙ (bits 3 ∙ ground (arith, ap (λ b. xor b (test_bit s.msr 7)) now7)),
    )
