-- ===== src/Base/Bits/Masks.antt =====
-- The masks that the devices apply, as arithmetic.
use Prim.Native.Nat.{ℕ, zero, suc, ◌+◌, ◌-◌, ◌*◌, ◌/◌, ◌%◌, ◌^◌, ◌≤◌, ◌<◌, bit_and}
use mathlib.Core.Path.{◌≡◌, ap, sym, ◌∙◌}
use native.Mathlib.Nat.{
  pow-suc, one-le-pow, mul-one, mul_left_comm, div-div-eq-div-mul, div-one, div-add-mod, mod-lt,
  mod-eq_of_lt, add-mul-mod_self_left,
}
use native.Mathlib.Omega.{arith}
use xhyve_manager.Base.Bits.{bit_and-zero}
use xhyve_manager.Base.Bits.Step.{bit_and_step}

-- The remainder by `2 * m`, from that of the half by `m`.
pub mod_double : (m x : ℕ) → 0 < m → x % (2 * m) ≡ x / 2 % m * 2 + x % 2
mod_double m x positive =
    let r : ℕ = x / 2 % m * 2 + x % 2 in
    let split : x ≡ r + 2 * m * (x / 2 / m) =
      omega (arith, ap (λ (t : ℕ). 2 * t) (div-add-mod (x / 2) m)) in
    let small : r < 2 * m = omega (arith, mod-lt (x / 2) positive) in
    ap (λ t. t % (2 * m)) split ∙ (add-mul-mod_self_left r (2 * m) (x / 2 / m) ∙ mod-eq_of_lt small)

-- A mask of `k` ones is the remainder by `2 ^ k`.
pub bit_and-ones : (k x : ℕ) → bit_and x (2 ^ k - 1) ≡ x % 2 ^ k
bit_and-ones zero x = omega (arith, bit_and-zero x)
bit_and-ones (suc k) x =
    let half : (2 ^ suc k - 1) / 2 ≡ 2 ^ k - 1 = omega (arith, pow-suc 2 k) in
    let full : 2 ^ suc k ≡ 2 * 2 ^ k = omega (arith, pow-suc 2 k) in
    ground (
      arith,
      bit_and_step x (2 ^ suc k - 1),
      half,
      bit_and-ones k (x / 2),
      mod_double (2 ^ k) x (one-le-pow k 2 (omega arith)),
      full,
      one-le-pow k 2,
    )

-- `x & 0xf8`.
pub bit_and-0xf8 : (x : ℕ) → bit_and x 0xf8 ≡ x % 256 / 8 * 8
bit_and-0xf8 x = omega (
  arith,
  bit_and_step x 0xf8,
  bit_and_step (x / 2) 0x7c,
  bit_and_step (x / 2 / 2) 0x3e,
  bit_and-ones 5 (x / 2 / 2 / 2),
)

-- A mask bounds what it lets through.
bit_and-le : (n x m : ℕ) → m ≤ n → bit_and x m ≤ m
bit_and-le n x zero below = rw bit_and-zero (omega arith)
bit_and-le zero x (suc m) below = absurd (omega arith)
bit_and-le (suc n) x (suc m) below =
    omega (arith, bit_and_step x (suc m), bit_and-le n (x / 2) (suc m / 2) (omega arith))

pub bit_and-le_right : (x m : ℕ) → bit_and x m ≤ m
bit_and-le_right x m = bit_and-le m x m (omega arith)

-- `x & 0xf0` of a byte.
pub bit_and-0xf0 : (x : ℕ) → bit_and x 0xf0 ≡ x % 256 / 16 * 16
bit_and-0xf0 x = omega (
  arith,
  bit_and_step x 0xf0,
  bit_and_step (x / 2) 0x78,
  bit_and_step (x / 2 / 2) 0x3c,
  bit_and_step (x / 2 / 2 / 2) 0x1e,
  bit_and-ones 4 (x / 2 / 2 / 2 / 2),
)

-- A mask that is moved up by `k` bits.
pub bit_and-mul_pow : (k x m : ℕ) → bit_and x (m * 2 ^ k) ≡ bit_and (x / 2 ^ k) m * 2 ^ k
bit_and-mul_pow zero x m =
    omega (arith, ap (λ y. bit_and x y) (mul-one m), ap (λ y. bit_and y m) (div-one x))
bit_and-mul_pow (suc k) x m =
    let double : 2 ^ suc k ≡ 2 * 2 ^ k = omega (arith, pow-suc 2 k) in
    let twice : m * 2 ^ suc k ≡ 2 * (m * 2 ^ k) =
      ap (λ t. m * t) double ∙ mul_left_comm m 2 (2 ^ k) in
    let half : 2 * (m * 2 ^ k) / 2 ≡ m * 2 ^ k = omega arith in
    let shift : x / 2 / 2 ^ k ≡ x / 2 ^ suc k =
      div-div-eq-div-mul x 2 (2 ^ k) ∙ ap (λ t. x / t) (sym double) in
    let b : ℕ = bit_and (x / 2 ^ suc k) m in
    let rest : bit_and (x / 2) (m * 2 ^ k) ≡ b * 2 ^ k =
      bit_and-mul_pow k (x / 2) m ∙ ap (λ t. bit_and t m * 2 ^ k) shift in
    let last : b * 2 ^ suc k ≡ 2 * (b * 2 ^ k) =
      ap (λ t. b * t) double ∙ mul_left_comm b 2 (2 ^ k) in
    let step : bit_and x (2 * (m * 2 ^ k)) ≡ 2 * (b * 2 ^ k) =
      omega (arith, bit_and_step x (2 * (m * 2 ^ k)), ap (λ y. bit_and (x / 2) y) half ∙ rest) in
    ap (λ y. bit_and x y) twice ∙ (step ∙ sym last)
