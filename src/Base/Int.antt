-- ===== src/Base/Int.antt =====
-- The integers over the native numbers: an `int` that a call returns.
use Prim.Native.Nat.{ℕ}
use mathlib.Core.Bool.{Bool, false}
use studytest.Base.Tests.{◌==◌}

pub data ℤ : Type 0 where
  pos : ℕ → ℤ
  negsuc : ℕ → ℤ

-- `n == 0`
abbrev pub is_zero : ℤ → Bool
is_zero (pos n) = n == 0
is_zero (negsuc n) = false
