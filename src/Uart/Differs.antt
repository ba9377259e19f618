-- ===== src/Uart/Differs.antt =====
-- The test of the serial port for a changed bit (src/uart_emul.c).
use xhyve_manager.Base.{
  ℕ, ◌^◌, ◌<◌, ◌≡◌, refl, ap, ◌∙◌, Bool, true, false, not, ◌&&◌, ◌==◌, bit_and, bit_xor,
}
use mathlib.Core.Bool.{xor}
use xhyve_manager.Base.Bits.{
  test_bit, has_bit-test_bit, test_bit-bit_and, test_bit-bit_xor, test_bit_ext, bit_and-lt,
  bit_xor-lt,
}
use xhyve_manager.Uart.Device.{differs}

xor-and : (a b c : Bool) → xor (a && c) (b && c) ≡ (xor a b && c)
unfolding mathlib.Core.Bool.xor
xor-and true true true = refl
xor-and true true false = refl
xor-and true false true = refl
xor-and true false false = refl
xor-and false true true = refl
xor-and false true false = refl
xor-and false false true = refl
xor-and false false false = refl

-- `differs` compares one bit.
pub differs-bit :
    (w x y p : ℕ) → x < 2 ^ w → y < 2 ^ w → differs x y (2 ^ p) ≡ xor (test_bit x p) (test_bit y p)
differs-bit w x y p fx fy =
    let together : bit_xor (bit_and x (2 ^ p)) (bit_and y (2 ^ p)) ≡ bit_and (bit_xor x y) (2 ^ p) =
      test_bit_ext w _ _ (bit_xor-lt w _ _ (bit_and-lt w x (2 ^ p) fx) (bit_and-lt w y (2 ^ p) fy))
        (bit_and-lt w _ (2 ^ p) (bit_xor-lt w x y fx fy))
        (λ i below.
          rw
            (
              test_bit-bit_xor (bit_and x (2 ^ p)) (bit_and y (2 ^ p)) i,
              test_bit-bit_and x (2 ^ p) i,
              test_bit-bit_and y (2 ^ p) i,
              test_bit-bit_and (bit_xor x y) (2 ^ p) i,
              test_bit-bit_xor x y i,
            )
            (xor-and (test_bit x i) (test_bit y i) (test_bit (2 ^ p) i))) in
    ap (λ m. not (m == 0)) together ∙ (has_bit-test_bit (bit_xor x y) p ∙ test_bit-bit_xor x y p)
