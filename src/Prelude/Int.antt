-- ===== src/Prelude/Int.antt =====
-- Signed results of callbacks: only their sign is ever tested.
use Prim.Native.Nat.{ℕ, zero, suc}
use mathlib.Core.Bool.{Bool, true, false}

-- `negsuc n` is -(n + 1).
pub data ℤ : Type 0 where
  pos : ℕ → ℤ
  negsuc : ℕ → ℤ

abbrev pub is_neg : ℤ → Bool
is_neg (pos n) = false
is_neg (negsuc n) = true

abbrev pub is_zero : ℤ → Bool
is_zero (pos zero) = true
is_zero (pos (suc n)) = false
is_zero (negsuc n) = false

abbrev pub is_one : ℤ → Bool
is_one (pos (suc zero)) = true
is_one (pos zero) = false
is_one (pos (suc (suc n))) = false
is_one (negsuc n) = false
