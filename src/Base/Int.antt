-- ===== src/Base/Int.antt =====
-- Go's `int` where the program only tests its sign or compares it with a length.
use Prim.Native.Nat.{ℕ}

-- `negsuc n` is -(n + 1).
pub data ℤ : Type 0 where
  pos : ℕ → ℤ
  negsuc : ℕ → ℤ
