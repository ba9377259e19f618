-- ===== src/Base/Bits.antt =====
-- The bits of a word: C's `&`, `|`, `^` and `~` read bit by bit, at every width.
mod Step
pub mod Masks
pub mod Shift
use Step.{bit_or_step, bit_and_step, bit_xor_step}
use Prim.Native.Nat.{
  ℕ, zero, suc, ◌+◌, ◌-◌, ◌*◌, ◌/◌, ◌%◌, ◌^◌, ◌≤◌, ◌<◌, min, max, differ, bit_and, bit_or, bit_xor,
  bit_and-bitwise,
}
use mathlib.Core.Path.{◌≡◌, refl}
use mathlib.Core.Bool.{Bool, true, false, not, ◌&&◌, ◌||◌, xor}
use mathlib.Core.Logic.{◌↔◌, ◌⊎◌, inl, inr}
use native.Mathlib.Nat.{pow-suc, one-le-pow}
use native.Mathlib.Omega.{arith}
use xhyve_manager.Base.Tests.{◌==◌, ltb, Bool-cases}

-- Bit `i` of `x`.
abbrev pub test_bit : ℕ → ℕ → Bool
test_bit x zero = x % 2 == 1
test_bit x (suc i) = test_bit (x / 2) i

differ_bound : (a b : ℕ) → a < 2 → b < 2 → differ a b < 2
differ_bound zero b ha hb = hb
differ_bound (suc a) zero ha hb = ha
differ_bound (suc a) (suc b) ha hb = differ_bound a b (omega arith) (omega arith)

bit_and_halves : (a b : ℕ) → bit_and a b / 2 ≡ bit_and (a / 2) (b / 2)
bit_and_halves a b = ground (arith, bit_and_step a b)

bit_or_halves : (a b : ℕ) → bit_or a b / 2 ≡ bit_or (a / 2) (b / 2)
bit_or_halves a b = ground (arith, bit_or_step a b)

bit_xor_halves : (a b : ℕ) → bit_xor a b / 2 ≡ bit_xor (a / 2) (b / 2)
bit_xor_halves a b = ground (arith, bit_xor_step a b, differ_bound (a % 2) (b % 2))

pub test_bit-bit_and : (a b i : ℕ) → test_bit (bit_and a b) i ≡ (test_bit a i && test_bit b i)
test_bit-bit_and a b zero = ground (arith, bit_and_step a b)
test_bit-bit_and a b (suc i) = rw (bit_and_halves a b) (test_bit-bit_and (a / 2) (b / 2) i)

pub test_bit-bit_or : (a b i : ℕ) → test_bit (bit_or a b) i ≡ (test_bit a i || test_bit b i)
test_bit-bit_or a b zero = ground (arith, bit_or_step a b)
test_bit-bit_or a b (suc i) = rw (bit_or_halves a b) (test_bit-bit_or (a / 2) (b / 2) i)

pub test_bit-bit_xor : (a b i : ℕ) → test_bit (bit_xor a b) i ≡ xor (test_bit a i) (test_bit b i)
unfolding xor
test_bit-bit_xor a b zero = ground (arith, bit_xor_step a b)
test_bit-bit_xor a b (suc i) = rw (bit_xor_halves a b) (test_bit-bit_xor (a / 2) (b / 2) i)

pub test_bit-zero : (i : ℕ) → test_bit 0 i ≡ false
test_bit-zero zero = refl
test_bit-zero (suc i) = test_bit-zero i

-- `1 << p` has the bit `p` alone.
pub test_bit-pow : (p i : ℕ) → test_bit (2 ^ p) i ≡ (p == i)
test_bit-pow zero zero = refl
test_bit-pow zero (suc i) = ground (arith, test_bit-zero i)
test_bit-pow (suc p) zero = ground (arith, pow-suc 2 p)
test_bit-pow (suc p) (suc i) =
    let half : 2 ^ suc p / 2 ≡ 2 ^ p = omega (arith, pow-suc 2 p) in
    rw half (ground (arith, test_bit-pow p i))

-- `~x` in a word of `w` bits.
abbrev pub bit_not : ℕ → ℕ → ℕ
bit_not w x = 2 ^ w - 1 - x

pub test_bit-bit_not :
    (w x i : ℕ) → x < 2 ^ w → i < w → test_bit (bit_not w x) i ≡ not (test_bit x i)
test_bit-bit_not zero x i fits below = elim below [ ]
test_bit-bit_not (suc w) x zero fits below = ground (arith, pow-suc 2 w)
test_bit-bit_not (suc w) x (suc i) fits below =
    let half : bit_not (suc w) x / 2 ≡ bit_not w (x / 2) = omega (arith, pow-suc 2 w) in
    rw half (test_bit-bit_not w (x / 2) i (omega (arith, pow-suc 2 w)) (omega arith))

-- Two words of `w` bits with the same bits are one.
pub test_bit_ext :
    (w x y : ℕ) → x < 2 ^ w → y < 2 ^ w → ((i : ℕ) → i < w → test_bit x i ≡ test_bit y i) → x ≡ y
test_bit_ext zero x y fx fy same = omega arith
test_bit_ext (suc w) x y fx fy same =
    let halves : x / 2 ≡ y / 2 =
      test_bit_ext w (x / 2) (y / 2) (omega (arith, pow-suc 2 w)) (omega (arith, pow-suc 2 w))
        (λ i below. same (suc i) (omega arith)) in
    ground (arith, same 0)

-- Above its width a word has no bit.
pub test_bit_above : (w x i : ℕ) → x < 2 ^ w → w ≤ i → test_bit x i ≡ false
test_bit_above zero x i fits above = let none : x ≡ 0 = omega arith in rw none (test_bit-zero i)
test_bit_above (suc w) x zero fits above = absurd (omega arith)
test_bit_above (suc w) x (suc i) fits above =
    test_bit_above w (x / 2) i (omega (arith, pow-suc 2 w)) (omega arith)

-- `&`, `|`, `^` stay within the width.
pub bit_and-lt : (w x y : ℕ) → x < 2 ^ w → bit_and x y < 2 ^ w
bit_and-lt zero x y fits =
    let none : x ≡ 0 = omega arith in rw none (rw (bit_and-bitwise 0 y) (omega arith))
bit_and-lt (suc w) x y fits =
    ground (arith, bit_and_step x y, bit_and-lt w (x / 2) (y / 2), pow-suc 2 w)

pub bit_or-lt : (w x y : ℕ) → x < 2 ^ w → y < 2 ^ w → bit_or x y < 2 ^ w
bit_or-lt zero x y fx fy =
    let none : x ≡ 0 = omega arith in
    let none2 : y ≡ 0 = omega arith in rw (none, none2) (omega arith)
bit_or-lt (suc w) x y fx fy =
    ground (arith, bit_or_step x y, bit_or-lt w (x / 2) (y / 2), pow-suc 2 w)

pub bit_xor-lt : (w x y : ℕ) → x < 2 ^ w → y < 2 ^ w → bit_xor x y < 2 ^ w
bit_xor-lt zero x y fx fy =
    let none : x ≡ 0 = omega arith in
    let none2 : y ≡ 0 = omega arith in rw (none, none2) (omega arith)
bit_xor-lt (suc w) x y fx fy = ground (
  arith,
  bit_xor_step x y,
  differ_bound (x % 2) (y % 2) (omega arith) (omega arith),
  bit_xor-lt w (x / 2) (y / 2),
  pow-suc 2 w,
)

-- C's test `(x & (1 << p)) != 0`.
abbrev pub has_bit : ℕ → ℕ → Bool
has_bit x p = not (bit_and x (2 ^ p) == 0)

bit_and-zero_within : (n x : ℕ) → x ≤ n → bit_and x 0 ≡ 0
bit_and-zero_within n zero below = refl
bit_and-zero_within zero (suc x) below = absurd (omega arith)
bit_and-zero_within (suc n) (suc x) below =
    omega (arith, bit_and_step (suc x) 0, bit_and-zero_within n (suc x / 2) (omega arith))

bit_and-zero : (x : ℕ) → bit_and x 0 ≡ 0
bit_and-zero x = bit_and-zero_within x x (omega arith)

pow_mono : (p w : ℕ) → p < w → 2 ^ p < 2 ^ w
pow_mono p zero below = elim below [ ]
pow_mono zero (suc w) below = omega (arith, pow-suc 2 w, one-le-pow w 2)
pow_mono (suc p) (suc w) below = omega (arith, pow-suc 2 w, pow-suc 2 p, pow_mono p w (omega arith))

-- The test reads the bit.
pub has_bit-test_bit : (x p : ℕ) → has_bit x p ≡ test_bit x p
has_bit-test_bit x zero = ground (arith, bit_and_step x 1, bit_and-zero (x / 2))
has_bit-test_bit x (suc p) =
    let one : 2 ^ suc p / 2 ≡ 2 ^ p = omega (arith, pow-suc 2 p) in
    ground (arith, bit_and_step x (2 ^ suc p), one, pow-suc 2 p, has_bit-test_bit (x / 2) p)

-- `x | (1 << p)` and `x & ~(1 << p)` in a word of `w` bits.
abbrev pub set_bit : ℕ → ℕ → ℕ
set_bit x p = bit_or x (2 ^ p)

abbrev pub clear_bit : ℕ → ℕ → ℕ → ℕ
clear_bit w x p = bit_and x (bit_not w (2 ^ p))

pub test_bit-set_bit : (x p i : ℕ) → test_bit (set_bit x p) i ≡ (p == i || test_bit x i)
test_bit-set_bit x p i = ground (arith, test_bit-bit_or x (2 ^ p) i, test_bit-pow p i)

pub test_bit-clear_bit :
    (w x p i : ℕ) → p < w → i < w → test_bit (clear_bit w x p) i ≡ (not (p == i) && test_bit x i)
test_bit-clear_bit w x p i hp hi = ground (
  arith,
  test_bit-bit_and x (bit_not w (2 ^ p)) i,
  test_bit-bit_not w (2 ^ p) i (pow_mono p w hp),
  test_bit-pow p i,
)

pub set_bit-lt : (w x p : ℕ) → x < 2 ^ w → p < w → set_bit x p < 2 ^ w
set_bit-lt w x p fits below = bit_or-lt w x (2 ^ p) fits (pow_mono p w below)

pub clear_bit-lt : (w x p : ℕ) → x < 2 ^ w → clear_bit w x p < 2 ^ w
clear_bit-lt w x p fits = bit_and-lt w x _ fits
