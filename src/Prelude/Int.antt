-- ===== src/Prelude/Int.antt =====
-- Signed results of the C++ code (`int`, `ssize_t`) over the native numbers.
use mprtplib.Prelude.{ℕ, Bool, false, ◌==◌, true}

-- `negsuc n` is -(n + 1).
pub data ℤ : Type 0 where
  pos : ℕ → ℤ
  negsuc : ℕ → ℤ

abbrev pub is_pos : ℤ → ℕ → Bool
is_pos (pos m) n = m == n
is_pos (negsuc m) n = false

abbrev pub is_neg : ℤ → Bool
is_neg (pos m) = false
is_neg (negsuc m) = true
