-- ===== src/Prelude/Integers.antt =====
-- Signed integers over the native numbers.
use Prim.Native.Nat.{ℕ, suc, ◌-◌, ◌*◌}

-- `negsuc n` is -(n + 1).
pub data ℤ : Type 0 where
  pos : ℕ → ℤ
  negsuc : ℕ → ℤ

abbrev pub times : ℕ → ℤ → ℤ
times k (pos n) = pos (n * k)
times k (negsuc n) = negsuc (suc n * k - 1)
