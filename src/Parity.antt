-- ===== src/Parity.antt =====
-- Arithmetic modulo two in the place of `double`: exact, so that theorems about exact arithmetic run.
use motor_stand.Prelude.{◌%◌, ◌≡◌, refl, Bool, true, false, not, ◌&&◌, ◌==◌, [], arith}
use motor_stand.Prelude.Int.{ℤ, pos, negsuc}
use motor_stand.Double.{Double}
use motor_stand.Double.Exact.{IsExact, HasExactZero}

abbrev pub differ : Bool → Bool → Bool
differ true b = not b
differ false b = b

abbrev pub same : Bool → Bool → Bool
same a b = not (differ a b)

abbrev pub odd : ℤ → Bool
odd (pos n) = n % 2 == 1
odd (negsuc n) = n % 2 == 0

instance abbrev pub parity : Double Bool
parity = record {
  nought = false;
  unit = true;
  add = differ;
  sub = differ;
  mul = λ a b. a && b;
  div = λ a b. a && b;
  neg = λ a. a;
  fabs = λ a. a;
  gt = λ a b. a && not b;
  eq = same;
  of_long = odd;
  show_lf = λ a. [];
}

add_comm : (a b : Bool) → differ a b ≡ differ b a
add_comm a b = ground arith

add_assoc : (a b c : Bool) → differ (differ a b) c ≡ differ a (differ b c)
add_assoc a b c = ground arith

mul_assoc : (a b c : Bool) → ((a && b) && c) ≡ (a && (b && c))
mul_assoc a b c = ground arith

mul_add : (a b c : Bool) → (a && differ b c) ≡ differ (a && b) (a && c)
mul_add a b c = ground arith

pub parity-IsExact : IsExact Bool
parity-IsExact = record {
  add_comm = add_comm;
  add_assoc = add_assoc;
  zero_add = λ a. refl;
  add_neg = λ a. ground arith;
  sub_eq = λ a b. refl;
  mul_comm = λ a b. ground arith;
  mul_assoc = mul_assoc;
  one_mul = λ a. refl;
  mul_add = mul_add;
  div_eq = λ a b. refl;
  mul_inv = λ a ne. ground (arith, ne);
}

only_false : (a : Bool) → same a false ≡ true → a ≡ false
only_false a h = ground arith

pub parity-HasExactZero : HasExactZero Bool
parity-HasExactZero = record { eq_nought = only_false }
