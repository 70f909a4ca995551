-- ===== src/Double.antt =====
-- What the code does with a `double`. The type and its operations are not the program's, so they
-- are a parameter: `W` is the type, `Double W` its operations. `literal m e` is the double nearest
-- to m * 10 ^ (-e). The conversions to integers round towards zero.
use mprtplib.Prelude.{ℕ, Bool}
use mprtplib.Prelude.Int.{ℤ}

pub record Double (W : Type 0) : Type 0 where
  pub of_nat : ℕ → W
  pub literal : ℕ → ℕ → W
  pub add : W → W → W
  pub sub : W → W → W
  pub mul : W → W → W
  pub div : W → W → W
  pub neg : W → W
  pub lt : W → W → Bool
  pub le : W → W → Bool
  pub eq : W → W → Bool
  pub to_uint8 : W → ℕ
  pub to_uint32 : W → ℕ
  pub to_uint64 : W → ℕ
  pub to_int64 : W → ℤ
