-- ===== src/Quartet.antt =====
-- The field of four elements in the place of `double`: exact, and with enough numbers for the fit of a
-- cubic. The pair `(a, b)` is a + b w, where w * w is w + 1.
use motor_stand.Prelude.{◌≡◌, refl, Bool, true, false, ◌&&◌, ◌||◌, not, [], arith}
use motor_stand.Double.{Double}
use motor_stand.Double.Exact.{IsExact, HasExactZero}
use motor_stand.Parity.{differ, same, odd}

abbrev pub Quad : Type 0
Quad = Bool × Bool

abbrev plus : Quad → Quad → Quad
plus (a, b) (c, e) = (differ a c, differ b e)

abbrev times : Quad → Quad → Quad
times (a, b) (c, e) = (differ (a && c) (b && e), differ (differ (a && e) (b && c)) (b && e))

-- The square of an element is its inverse.
abbrev over : Quad → Quad → Quad
over a b = times a (times b b)

abbrev equal : Quad → Quad → Bool
equal (a, b) (c, e) = same a c && same b e

abbrev some_bit : Quad → Bool
some_bit (a, b) = a || b

instance abbrev pub quad : Double Quad
quad = record {
  nought = (false, false);
  unit = (true, false);
  add = plus;
  sub = plus;
  mul = times;
  div = over;
  neg = λ a. a;
  fabs = λ a. a;
  gt = λ a b. some_bit a && not (some_bit b);
  eq = equal;
  of_long = λ n. (odd n, false);
  show_lf = λ a. [];
}

plus_comm : (a b : Quad) → plus a b ≡ plus b a
plus_comm (a, b) (c, e) = ground arith

plus_assoc : (a b c : Quad) → plus (plus a b) c ≡ plus a (plus b c)
plus_assoc (a, b) (c, e) (f, g) = ground arith

plus_self : (a : Quad) → plus a a ≡ (false, false)
plus_self (a, b) = ground arith

times_comm : (a b : Quad) → times a b ≡ times b a
times_comm (a, b) (c, e) = ground arith

times_assoc : (a b c : Quad) → times (times a b) c ≡ times a (times b c)
times_assoc (a, b) (c, e) (f, g) = ground arith

one_times : (a : Quad) → times (true, false) a ≡ a
one_times (a, b) = ground arith

times-plus : (a b c : Quad) → times a (plus b c) ≡ plus (times a b) (times a c)
times-plus (a, b) (c, e) (f, g) = ground arith

over-times : (a b : Quad) → over a b ≡ times a (over (true, false) b)
over-times (a, b) (c, e) = ground arith

times-over :
    (a : Quad) → equal a (false, false) ≡ false → times a (over (true, false) a) ≡ (true, false)
times-over (a, b) e = ground arith

only_zero : (a : Quad) → equal a (false, false) ≡ true → a ≡ (false, false)
only_zero (a, b) e = ground arith

pub quad-IsExact : IsExact Quad
quad-IsExact = record {
  add_comm = plus_comm;
  add_assoc = plus_assoc;
  zero_add = λ a. refl;
  add_neg = plus_self;
  sub_eq = λ a b. refl;
  mul_comm = times_comm;
  mul_assoc = times_assoc;
  one_mul = one_times;
  mul_add = times-plus;
  div_eq = over-times;
  mul_inv = times-over;
}

pub quad-HasExactZero : HasExactZero Quad
quad-HasExactZero = record { eq_nought = only_zero }
