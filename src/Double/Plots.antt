-- ===== src/Double/Plots.antt =====
-- What src/teststandui.c needs of `double` besides the arithmetic of the other components: decimal
-- literals, two functions of math.h and the formats of snprintf.
use motor_stand.Prelude.{ℕ, List}

pub record Plots (D : Type 0) : Type 0 where
  pub decimal : ℕ → ℕ → D  -- `decimal n k` is the literal n / 10^k, e.g. 0.1 for `decimal 1 1`
  pub sqrt : D → D
  pub pow : D → D → D
  pub show_fixed : ℕ → D → List ℕ  -- the characters that `%.kf` prints
