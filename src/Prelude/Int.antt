-- ===== src/Prelude/Int.antt =====
-- Python's integers where the source tests the sign or reads a signed word.
use Prim.Native.Nat.{ℕ}

-- `negsuc n` is -(n + 1).
pub data ℤ : Type 0 where
  pos : ℕ → ℤ
  negsuc : ℕ → ℤ
