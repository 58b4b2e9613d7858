-- ===== src/Prelude/Integers.antt =====
-- Integers over the native numbers: `pos n` is n, `negsuc n` is -(n + 1).
use Prim.Native.Nat.{ℕ, zero}
use mathlib.Core.Bool.{Bool, true, false}

pub data ℤ : Type 0 where
  pos negsuc : ℕ → ℤ

-- `x == -1`
abbrev pub is_minus_one : ℤ → Bool
is_minus_one (negsuc zero) = true
is_minus_one _ = false
