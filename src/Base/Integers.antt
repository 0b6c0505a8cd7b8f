-- ===== src/Base/Integers.antt =====
-- Integers over the native numbers, for quantities that the code takes below nought.
use Prim.Native.Nat.{ℕ}

pub data ℤ : Type 0 where
  pos : ℕ → ℤ
  negsuc : ℕ → ℤ
