-- ===== src/Prelude/Ints.antt =====
-- Signed integers, for Go's int where the program reads a sign.
use Prim.Native.Nat.{ℕ}

-- `negsuc n` is -(n + 1).
pub data ℤ : Type 0 where
  pos : ℕ → ℤ
  negsuc : ℕ → ℤ
