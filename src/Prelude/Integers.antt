-- ===== src/Prelude/Integers.antt =====
-- Integers over the native numbers, for the parameters of a request that may be negative.
use Prim.Native.Nat.{ℕ}

pub data ℤ : Type 0 where
  pos : ℕ → ℤ
  -- `negsuc n` is -1 - n.
  negsuc : ℕ → ℤ
