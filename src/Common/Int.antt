-- ===== src/Common/Int.antt =====
-- Signed integers, as far as a Redis counter needs them. `negsuc n` is -(n + 1).
use Prim.Native.Nat.{ℕ, zero, suc, ◌+◌}
use mathlib.Core.Path.{◌≡◌, refl}
use mathlib.Core.Bool.{Bool, true, false}
use native.Mathlib.Omega.{arith}

pub data ℤ : Type 0 where
  pos : ℕ → ℤ
  negsuc : ℕ → ℤ

-- x + 1
unfoldable pub suc_ℤ : ℤ → ℤ
suc_ℤ (pos n) = pos (n + 1)
suc_ℤ (negsuc zero) = pos 0
suc_ℤ (negsuc (suc n)) = negsuc n

-- x - 1
unfoldable pub pred_ℤ : ℤ → ℤ
pred_ℤ (pos zero) = negsuc 0
pred_ℤ (pos (suc n)) = pos n
pred_ℤ (negsuc n) = negsuc (suc n)

-- x < 0
abbrev pub is_negative : ℤ → Bool
is_negative (pos n) = false
is_negative (negsuc n) = true

pub pred-suc_ℤ : (x : ℤ) → pred_ℤ (suc_ℤ x) ≡ x
unfolding pred_ℤ suc_ℤ
pred-suc_ℤ (pos n) = ground arith
pred-suc_ℤ (negsuc zero) = refl
pred-suc_ℤ (negsuc (suc n)) = refl
