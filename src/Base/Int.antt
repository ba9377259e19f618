-- ===== src/Base/Int.antt =====
-- C's `int` as an integer, under the library's names: its ℤ stands on the unary numbers.
use Prim.Native.Nat.{ℕ, zero, suc}
use mathlib.Core.Path.{◌≡◌, refl}
use mathlib.Core.Bool.{Bool, false}
use xhyve_manager.Base.Tests.{◌==◌, ltb}

-- `negsuc n` is -(n + 1).
pub data ℤ : Type 0 where
  pos : ℕ → ℤ
  negsuc : ℕ → ℤ

-- `x + 1` and `x - 1`.
abbrev pub succ_ℤ : ℤ → ℤ
succ_ℤ (pos n) = pos (suc n)
succ_ℤ (negsuc zero) = pos 0
succ_ℤ (negsuc (suc n)) = negsuc n

abbrev pub pred_ℤ : ℤ → ℤ
pred_ℤ (pos zero) = negsuc 0
pred_ℤ (pos (suc n)) = pos n
pred_ℤ (negsuc n) = negsuc (suc n)

-- `x == n` for a numeral n, and `x > 0`.
abbrev pub is_nat : ℤ → ℕ → Bool
is_nat (pos n) m = n == m
is_nat (negsuc n) m = false

abbrev pub is_positive : ℤ → Bool
is_positive (pos n) = ltb 0 n
is_positive (negsuc n) = false

pub pred_ℤ-succ_ℤ : (z : ℤ) → pred_ℤ (succ_ℤ z) ≡ z
pred_ℤ-succ_ℤ (pos n) = refl
pred_ℤ-succ_ℤ (negsuc zero) = refl
pred_ℤ-succ_ℤ (negsuc (suc n)) = refl

pub succ_ℤ-pred_ℤ : (z : ℤ) → succ_ℤ (pred_ℤ z) ≡ z
succ_ℤ-pred_ℤ (pos zero) = refl
succ_ℤ-pred_ℤ (pos (suc n)) = refl
succ_ℤ-pred_ℤ (negsuc n) = refl
