-- ===== src/Base/Bits/Shift.antt =====
-- Shifts of a word, bit by bit: `x >> k` is a division, `x << k` a product and a cast a remainder.
use Prim.Native.Nat.{ℕ, zero, suc, ◌+◌, ◌*◌, ◌/◌, ◌%◌, ◌^◌, ◌<◌}
use mathlib.Core.Path.{◌≡◌, ap, ◌∙◌, sym}
use mathlib.Core.Bool.{false}
use native.Mathlib.Nat.{pow-suc, one-le-pow, div-div-eq-div-mul, zero-add, suc-add, mul_left_comm}
use native.Mathlib.Omega.{arith}
use xhyve_manager.Base.Bits.{test_bit}
use xhyve_manager.Base.Bits.Masks.{mod_double}

doubled : (k : ℕ) → 2 ^ suc k ≡ 2 * 2 ^ k
doubled k = omega (arith, pow-suc 2 k)

pub test_bit-mod : (k x i : ℕ) → i < k → test_bit (x % 2 ^ k) i ≡ test_bit x i
test_bit-mod zero x i below = absurd (omega arith)
test_bit-mod (suc k) x zero below = ground (
  arith,
  pow-suc 2 k,
  mod_double (2 ^ k) x (one-le-pow k 2 (omega arith)),
  ap (λ m. x % m) (doubled k),
)
test_bit-mod (suc k) x (suc i) below =
    let half : x % 2 ^ suc k / 2 ≡ x / 2 % 2 ^ k =
      omega
        (arith, mod_double (2 ^ k) x (one-le-pow k 2 (omega arith)), ap (λ m. x % m) (doubled k)) in
    ap (λ y. test_bit y i) half ∙ test_bit-mod k (x / 2) i (omega arith)

pub test_bit-div : (k x i : ℕ) → test_bit (x / 2 ^ k) i ≡ test_bit x (k + i)
test_bit-div zero x i = ground (arith, ap (λ j. test_bit x j) (zero-add i))
test_bit-div (suc k) x i =
    ap (λ y. test_bit y i) (ap (λ m. x / m) (doubled k) ∙ sym (div-div-eq-div-mul x 2 (2 ^ k)))
    ∙ (test_bit-div k (x / 2) i ∙ sym (ap (λ j. test_bit x j) (suc-add k i)))

double : (k x : ℕ) → x * 2 ^ suc k ≡ 2 * (x * 2 ^ k)
double k x = ap (λ m. x * m) (doubled k) ∙ (mul_left_comm x 2 (2 ^ k))

even : (k x : ℕ) → x * 2 ^ suc k % 2 ≡ 0
even k x = omega (arith, double k x)

half : (k x : ℕ) → x * 2 ^ suc k / 2 ≡ x * 2 ^ k
half k x = omega (arith, double k x)

pub test_bit-mul_low : (k x i : ℕ) → i < k → test_bit (x * 2 ^ k) i ≡ false
test_bit-mul_low zero x i below = absurd (omega arith)
test_bit-mul_low (suc k) x zero below = ground (arith, even k x)
test_bit-mul_low (suc k) x (suc i) below =
    ap (λ y. test_bit y i) (half k x) ∙ test_bit-mul_low k x i (omega arith)

pub test_bit-mul : (k x i : ℕ) → test_bit (x * 2 ^ k) (k + i) ≡ test_bit x i
test_bit-mul zero x i = ground (arith, ap (λ j. test_bit x j) (zero-add i))
test_bit-mul (suc k) x i =
    ap (λ j. test_bit (x * 2 ^ suc k) j) (suc-add k i)
    ∙ (ap (λ y. test_bit y (k + i)) (half k x) ∙ test_bit-mul k x i)
