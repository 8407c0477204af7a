-- ===== src/Double/Order.antt =====
-- What the comparisons of `double` satisfy, also for values that are not numbers: eq a a is true for the
-- others only. A hypothesis of the theorems about maxima.
use motor_stand.Prelude.{◌≡◌, true, false, ◌||◌}
use motor_stand.Double.{Double}

pub record IsOrder (D : Type 0) ⦃d : Double D⦄ : Type 0 where
  pub le_trans :
      (a b c : D) → d.eq b b ≡ true → d.gt a b ≡ false → d.gt b c ≡ false → d.gt a c ≡ false
  pub asym : (a b : D) → d.gt a b ≡ true → d.gt b a ≡ false
  pub gt_ordered : (a b : D) → d.gt a b ≡ true → d.eq a a ≡ true
  pub nought_ordered : d.eq d.nought d.nought ≡ true
  pub irrefl : (a : D) → d.gt a a ≡ false
  pub below_unit : (m : D) → (d.gt d.nought m || d.eq m d.nought) ≡ true → d.gt m d.unit ≡ false
