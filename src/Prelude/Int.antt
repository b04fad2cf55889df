-- ===== src/Prelude/Int.antt =====
-- The `int` results of the program, by sign. `negsuc n` is -(n + 1).
use simplesvr.Prelude.{ℕ, zero, suc, Bool, true, false}

pub data ℤ : Type 0 where
  pos : ℕ → ℤ
  negsuc : ℕ → ℤ

-- The test `if (ret)`.
abbrev pub is_nonzero : ℤ → Bool
is_nonzero (pos zero) = false
is_nonzero (pos (suc n)) = true
is_nonzero (negsuc n) = true
