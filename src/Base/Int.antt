-- ===== src/Base/Int.antt =====
-- The signed result of a C comparison function.
use Prim.Native.Nat.{ℕ, zero, suc}
use mathlib.Core.Bool.{Bool, true, false}

-- `negsuc n` is -(n + 1).
pub data ℤ : Type 0 where
  pos : ℕ → ℤ
  negsuc : ℕ → ℤ

-- `c <= 0`
abbrev pub is_le_zero : ℤ → Bool
is_le_zero (pos zero) = true
is_le_zero (pos (suc n)) = false
is_le_zero (negsuc n) = true

-- `c == 0`
abbrev pub is_zero : ℤ → Bool
is_zero (pos zero) = true
is_zero (pos (suc n)) = false
is_zero (negsuc n) = false
