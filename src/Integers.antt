-- ===== src/Integers.antt =====
-- Whole numbers in the place of `double`, so that the model runs.
use motor_stand.Prelude.{ℕ, ◌+◌, ◌-◌, ◌*◌, ◌/◌, if◌then◌else◌, leb, ltb}
use motor_stand.Prelude.Int.{ℤ, pos, negsuc, eq_ℤ}
use motor_stand.Prelude.Text.{print_long}
use motor_stand.Double.{Double}

abbrev pub pos_part : ℤ → ℕ
pos_part (pos n) = n
pos_part (negsuc n) = 0

abbrev pub neg_part : ℤ → ℕ
neg_part (pos n) = 0
neg_part (negsuc n) = n + 1

abbrev pub sub_ℕ : ℕ → ℕ → ℤ
sub_ℕ a b = if leb b a then pos (a - b) else negsuc (b - a - 1)

abbrev pub plus : ℤ → ℤ → ℤ
plus a b = sub_ℕ (pos_part a + pos_part b) (neg_part a + neg_part b)

abbrev pub minus : ℤ → ℤ
minus a = sub_ℕ (neg_part a) (pos_part a)

abbrev pub times : ℤ → ℤ → ℤ
times a b =
    sub_ℕ (pos_part a * pos_part b + neg_part a * neg_part b)
      (pos_part a * neg_part b + neg_part a * pos_part b)

-- Rounds towards zero; a division by zero gives zero.
abbrev pub quotient : ℤ → ℤ → ℤ
quotient (pos a) (pos b) = pos (a / b)
quotient (pos a) (negsuc b) = minus (pos (a / (b + 1)))
quotient (negsuc a) (pos b) = minus (pos ((a + 1) / b))
quotient (negsuc a) (negsuc b) = pos ((a + 1) / (b + 1))

abbrev pub magnitude : ℤ → ℤ
magnitude a = pos (pos_part a + neg_part a)

instance abbrev pub whole_numbers : Double ℤ
whole_numbers = record {
  nought = pos 0;
  unit = pos 1;
  add = plus;
  sub = λ a b. plus a (minus b);
  mul = times;
  div = quotient;
  neg = minus;
  fabs = magnitude;
  gt = λ a b. ltb (pos_part b + neg_part a) (pos_part a + neg_part b);
  eq = eq_ℤ;
  of_long = λ z. z;
  show_lf = print_long;
}
