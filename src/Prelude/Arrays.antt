-- ===== src/Prelude/Arrays.antt =====
-- Loops that fill a new array.
use Prim.Native.Nat.{ℕ, ◌<◌}
use mathlib.Core.Path.{◌≡◌, sym, ◌∙◌}
use mathlib.Core.List.{List}
use native.Mathlib.Decide.{ℕ_discrete}
use native.Mathlib.Omega.{arith}
use motor_stand.Prelude.Lists.{
  length, length-set, length-replicate, get_or, get_or-set_self, get_or-set_ne, set, replicate,
}
use motor_stand.Prelude.Loops.{for_range, for_range_inv}

module _ {A : Type 0} (d : A) (n : ℕ) (f : ℕ → A) where
  abbrev filled : List A
  filled = for_range n 0 (λ i xs. set xs i (f i)) (replicate n d)

  -- The array has its size and the value of each round.
  pub filled_lem : (length filled ≡ n) × ((i : ℕ) → i < n → get_or filled i d ≡ f i)
  filled_lem =
      for_range_inv (λ k xs. (length xs ≡ n) × ((i : ℕ) → i < k → get_or xs i d ≡ f i))
        (λ i xs. set xs i (f i)) n
        (λ k xs lt v. (
          length-set xs k (f k) ∙ v.0,
          λ i hi. elim (ℕ_discrete i k) [
            | yes here ↦ rw here (get_or-set_self xs k (f k) d (omega (arith, v.0)))
            | no other ↦ get_or-set_ne xs k i (f k) d (λ e. other (sym e)) ∙ v.1 i (omega arith)
          ],
        ))
        n 0 (replicate n d) (omega arith) (length-replicate n d, λ i lt. absurd (omega arith))
