-- ===== src/Double.antt =====
-- The operations of C on `double` that the program uses. There are no floating-point numbers here: the
-- type and its operations are parameters, and a theorem that needs laws of arithmetic takes them as a
-- hypothesis. Most theorems need none and so hold of IEEE arithmetic with its roundings.
pub mod Exact
pub mod Order
pub mod Sums
pub mod Products
pub mod Plots
use motor_stand.Prelude.{ℕ, Bool, List}
use motor_stand.Prelude.Int.{ℤ}

pub record Double (D : Type 0) : Type 0 where
  pub nought : D  -- 0.0
  pub unit : D  -- 1.0
  pub add : D → D → D
  pub sub : D → D → D
  pub mul : D → D → D
  pub div : D → D → D
  pub neg : D → D
  pub fabs : D → D
  pub gt : D → D → Bool  -- a > b
  pub eq : D → D → Bool  -- a == b
  pub of_long : ℤ → D  -- the conversion from an integer type
  pub show_lf : D → List ℕ  -- the characters that `%lf` prints

module _ {D : Type 0} ⦃d : Double D⦄ where
  infixl 65 ◌⊕◌ ◌⊖◌
  infixl 70 ◌⊗◌ ◌⊘◌
  abbrev pub ◌⊕◌ : D → D → D
  a ⊕ b = d.add a b

  abbrev pub ◌⊖◌ : D → D → D
  a ⊖ b = d.sub a b

  abbrev pub ◌⊗◌ : D → D → D
  a ⊗ b = d.mul a b

  abbrev pub ◌⊘◌ : D → D → D
  a ⊘ b = d.div a b

-- `strtod`: the value, and the rest of the text behind the number.
abbrev pub Strtod : Type 0 → Type 0
Strtod D = List ℕ → D × List ℕ
