-- ===== src/Constants.antt =====
-- include/mprtp_constants.h and src/mprtp_constants.cpp.
use mprtplib.Prelude.{ℕ}
use mprtplib.Double.{Double}

abbrev pub ci_max : ℕ
ci_max = 3

module _ {W : Type 0} ⦃d : Double W⦄ where
  abbrev pub alpha : W
  alpha = d.literal 99 2

  abbrev pub timeout : W
  timeout = d.literal 3 0

  abbrev pub beta : W
  beta = d.literal 5 1

  abbrev pub gamma : W
  gamma = d.literal 75 2
