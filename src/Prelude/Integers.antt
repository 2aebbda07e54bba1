-- ===== src/Prelude/Integers.antt =====
-- Integers over the native numbers, as the signed fields of the code hold them.
use Prim.Native.Nat.{ℕ}
use mathlib.Core.Bool.{Bool, true, false}
use image_updater.Prelude.Tests.{ltb}

pub data ℤ : Type 0 where
  pos : ℕ → ℤ
  -- the integer -(n + 1)
  negsuc : ℕ → ℤ

-- z < 0
unfoldable pub is_negative : ℤ → Bool
is_negative (pos n) = false
is_negative (negsuc n) = true

-- z <= 0
unfoldable pub is_at_most_zero : ℤ → Bool
is_at_most_zero (pos n) = ltb n 1
is_at_most_zero (negsuc n) = true

-- z > n
unfoldable pub is_above : ℕ → ℤ → Bool
is_above n (pos m) = ltb n m
is_above n (negsuc m) = false
