-- ===== src/Uart/Invariant.antt =====
-- The well-formedness of the serial port under its accesses and events (src/uart_emul.c).
use xhyve_manager.Base.{
  ℕ, zero, suc, ◌<◌, ◌≡◌, inl, inr, refl, ◌∙◌, false, not, List, arith, if◌then◌else◌, ◌==◌,
  Bool-cases, bit_and, bit_or, bit_xor,
}
use xhyve_manager.Base.Bits.{
  has_bit, has_bit-test_bit, test_bit-bit_and, bit_or-lt, clear_bit, clear_bit-lt,
}
use xhyve_manager.Base.Bits.Masks.{bit_and-ones, bit_and-le_right}
use xhyve_manager.Uart.Fifo.{Port, rxfifo_reset, rxfifo_putchar}
use xhyve_manager.Uart.Flow.{
  IsFlowing, rxfifo_reset_lem, putchar-IsFlowing, getchar-IsFlowing, drain_loop-Drained,
  modes-putchar, modes-getchar,
}
use xhyve_manager.Uart.Device.{
  Uart, uart_intr_reason, iir_nopend, uart_toggle_intr, uart_reset, uart_init, uart_drain, differs,
  write_data, write_fcr, reflected, with_deltas, write_mcr, write_register, uart_write, read_iir,
  read_lsr, read_register, uart_read,
}

-- The registers are bytes, with the unused bits of IER and MCR clear; the FIFO is well formed, has
-- 16 characters if FCR enables it and one otherwise, and the terminal's event follows its room.
pub record IsSound (s : Uart) : Type 0 where
  pub flowing : IsFlowing s.port
  pub mode : s.port.fifo.size ≡ (if has_bit s.fcr 0 then 16 else 1)
  pub ier_lt : s.ier < 16
  pub lcr_lt : s.lcr < 256
  pub mcr_lt : s.mcr < 32
  pub lsr_lt : s.lsr < 256
  pub msr_lt : s.msr < 256
  pub fcr_lt : s.fcr < 256
  pub scr_lt : s.scr < 256
  pub dll_lt : s.dll < 256
  pub dlh_lt : s.dlh < 256

-- The interrupt line is asserted exactly while there is a reason for an interrupt.
abbrev pub IsLineRight : Uart → Type 0
IsLineRight s = s.asserted ≡ not (uart_intr_reason s == iir_nopend)

bit_xor_digits : (a b : ℕ) → a < 2 → b < 2 → bit_xor a b ≡ 0 → a ≡ b
bit_xor_digits zero zero ha hb e = refl
bit_xor_digits zero (suc zero) ha hb e = cc
bit_xor_digits (suc zero) zero ha hb e = cc
bit_xor_digits (suc zero) (suc zero) ha hb e = refl
bit_xor_digits zero (suc (suc b)) ha hb e = absurd (omega arith)
bit_xor_digits (suc zero) (suc (suc b)) ha hb e = absurd (omega arith)
bit_xor_digits (suc (suc a)) b ha hb e = absurd (omega arith)

-- The test of the enable bits of two FCR values.
differs_enable : (x y : ℕ) → differs x y 1 ≡ false → has_bit x 0 ≡ has_bit y 0
differs_enable x y e =
    ground (arith, bit_and-ones 1 x, bit_and-ones 1 y, bit_xor_digits (bit_and x 1) (bit_and y 1))

enable-mask : (value : ℕ) → has_bit (bit_and value 0xc9) 0 ≡ has_bit value 0
enable-mask value =
    has_bit-test_bit (bit_and value 0xc9) 0
    ∙ (test_bit-bit_and value 0xc9 0 ∙ ground (arith, has_bit-test_bit value 0))

port-IsSound :
    (s : Uart) (p : Port)
    → IsFlowing p
    → p.fifo.size ≡ s.port.fifo.size
    → IsSound s
    → IsSound (record s { port = p })
port-IsSound s p w same v = ground arith

write_data-IsSound : (s : Uart) (value : ℕ) → IsSound s → IsSound (write_data s value)
unfolding write_data
write_data-IsSound s value v =
    let (taken, p) = rxfifo_putchar s.port value in
    ground (
      arith,
      putchar-IsFlowing s.port value v.flowing,
      modes-putchar s.port value,
      bit_or-lt 8 s.lsr 2,
    )

reset-IsSound :
    (s : Uart) (size fcr : ℕ)
    → size ≡ (if has_bit fcr 0 then 16 else 1)
    → fcr < 256
    → IsSound s
    → IsSound (record s { port = rxfifo_reset s.port size; fcr = fcr })
reset-IsSound s size fcr mode fits v = ground (arith, rxfifo_reset_lem s.port size)

fcr-lt : (value : ℕ) → bit_and value 0xc9 < 256
fcr-lt value = omega (arith, bit_and-le_right value 0xc9)

write_fcr-IsSound : (s : Uart) (value : ℕ) → IsSound s → IsSound (write_fcr s value)
unfolding write_fcr
write_fcr-IsSound s value v = elim (Bool-cases (differs s.fcr value 1)) [
  | inl changes ↦ elim (Bool-cases (has_bit value 0)) [
    | inl on ↦
        let t =
          reset-IsSound s 16 (bit_and value 0xc9) (rw (enable-mask value, on) refl) (fcr-lt value)
            v in
        ground (
          arith,
          reset-IsSound (record s { port = rxfifo_reset s.port 16; fcr = bit_and value 0xc9 }) 16
              (bit_and value 0xc9) (rw (enable-mask value, on) refl) (fcr-lt value) t,
        )
    | inr off ↦ ground (arith, reset-IsSound s 1 0 refl (omega arith) v)
  ]
  | inr same ↦ elim (Bool-cases (has_bit value 0)) [
    | inl on ↦ ground (
      arith,
      reset-IsSound s 16 (bit_and value 0xc9) (rw (enable-mask value, on) refl) (fcr-lt value) v,
      differs_enable s.fcr value same,
      enable-mask value,
      fcr-lt value,
    )
    | inr off ↦ ground (arith, differs_enable s.fcr value same)
  ]
]

pub reflected-lt : (mcr : ℕ) → reflected mcr < 256
unfolding reflected
reflected-lt mcr = ground arith

write_mcr-IsSound : (s : Uart) (value : ℕ) → IsSound s → IsSound (write_mcr s value)
unfolding write_mcr
write_mcr-IsSound s value v = ground (
  arith,
  bit_and-le_right value 0x1f,
  bit_and-le_right (with_deltas s.msr (reflected (bit_and value 0x1f))) 0x0f,
  reflected-lt (bit_and value 0x1f),
  bit_or-lt 8 (bit_and (with_deltas s.msr (reflected (bit_and value 0x1f))) 0x0f)
      (reflected (bit_and value 0x1f)),
)

write_register-IsSound :
    (s : Uart) (offset value : ℕ)
    → value < 256
    → IsSound s
    → IsSound (write_register s offset value)
unfolding write_register
write_register-IsSound s offset value fits v = ground (
  arith,
  write_data-IsSound s value v,
  write_fcr-IsSound s value v,
  write_mcr-IsSound s value v,
  bit_and-le_right value 0x0f,
)

toggle-IsSound : (s : Uart) → IsSound s → IsSound (uart_toggle_intr s)
unfolding uart_toggle_intr
toggle-IsSound s v = ground arith

-- Every write of a byte keeps the port sound.
pub uart_write-IsSound :
    (s : Uart) (offset value : ℕ) → value < 256 → IsSound s → IsSound (uart_write s offset value)
unfolding uart_write
uart_write-IsSound s offset value fits v =
    toggle-IsSound _ (ground (arith, write_register-IsSound s offset value fits v))

read_iir-IsSound : (s : Uart) → IsSound s → IsSound (read_iir s).1
unfolding read_iir
read_iir-IsSound s v = ground arith

read_lsr-IsSound : (s : Uart) → IsSound s → IsSound (read_lsr s).1
unfolding read_lsr
read_lsr-IsSound s v = ground (
  arith,
  bit_or-lt 8 s.lsr 0x60,
  bit_or-lt 8 (bit_or s.lsr 0x60) 1,
  clear_bit-lt 8 (bit_or s.lsr 0x60) 0,
  clear_bit-lt 8 (bit_or (bit_or s.lsr 0x60) 1) 1,
  clear_bit-lt 8 (clear_bit 8 (bit_or s.lsr 0x60) 0) 1,
)

read_register-IsSound : (s : Uart) (offset : ℕ) → IsSound s → IsSound (read_register s offset).1
unfolding read_register
read_register-IsSound s offset v = ground (
  arith,
  read_iir-IsSound s v,
  read_lsr-IsSound s v,
  getchar-IsFlowing s.port v.flowing,
  modes-getchar s.port,
  bit_and-le_right s.msr 0xf0,
)

-- Every read keeps the port sound.
pub uart_read-IsSound : (s : Uart) (offset : ℕ) → IsSound s → IsSound (uart_read s offset).1
unfolding uart_read
uart_read-IsSound s offset v = toggle-IsSound _ (ground (arith, read_register-IsSound s offset v))

-- The event for readable input keeps the port sound.
pub uart_drain-IsSound : (s : Uart) → IsSound s → IsSound (uart_drain s)
unfolding uart_drain
uart_drain-IsSound s v =
    let d = drain_loop-Drained s.port.pending s.port v.flowing in
    elim (Bool-cases (has_bit s.mcr 4)) [
      | inl looped ↦ ground (arith, v.flowing)
      | inr open_ ↦ rw open_ (toggle-IsSound _ (port-IsSound s _ d.flowing d.same_size v))
    ]

pub init-IsSound : (input : List ℕ) → IsSound (uart_init input)
unfolding uart_init uart_reset rxfifo_reset
init-IsSound input = ground arith
