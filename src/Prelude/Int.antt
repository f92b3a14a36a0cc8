-- ===== src/Prelude/Int.antt =====
-- Whole numbers with a sign: JavaScript numbers that the code compares with 0.
use Prim.Native.Nat.{ℕ}
use mathlib.Core.Bool.{Bool, false}
use soulnet.Prelude.Tests.{ltb}

-- `negsuc n` is -(n + 1).
pub data ℤ : Type 0 where
  pos : ℕ → ℤ
  negsuc : ℕ → ℤ

-- n < z, for a count n
abbrev pub lt_count : ℕ → ℤ → Bool
lt_count n (pos m) = ltb n m
lt_count n (negsuc m) = false

-- 0 < z
abbrev pub is_positive : ℤ → Bool
is_positive (pos m) = ltb 0 m
is_positive (negsuc m) = false
