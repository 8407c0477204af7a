-- ===== src/Lu/Backward.antt =====
-- The backward substitution of `_solve_mat` of src/numerical_basics.c.
use native.Mathlib.Decide.{ℕ_discrete}
use motor_stand.Prelude.{
  ℕ, zero, suc, ◌+◌, ◌-◌, ◌≤◌, ◌<◌, ◌≡◌, ◌≢◌, refl, sym, ap, ap₂, ◌∙◌, false, List, set,
  get_or-set_ne, get_or-set_self, length, length-set, arith,
}
use motor_stand.Prelude.Loops.{for_range}
use motor_stand.Double.{Double, ◌⊕◌, ◌⊖◌, ◌⊗◌, ◌⊘◌}
use motor_stand.Double.Exact.{IsExact, mul-div}
use motor_stand.Double.Sums.{sum, sum_congr, for_range-sub}
use motor_stand.Matrix.{Memory}
use motor_stand.Lu.{backward, backward_step}
use motor_stand.Lu.Columns.{at}
use motor_stand.Lu.Substitution.{side}

module _ {D : Type 0} ⦃d : Double D⦄ (x : IsExact D) (h : Memory D) (n m : ℕ)
    (regular : (i : ℕ) → i < n → d.eq (at n m h i i) d.nought ≡ false) where
  -- The equation of row `i` of the upper triangle.
  abbrev pub Row : List D → ℕ → D → Type 0
  Row z i v = sum (n - i) i (λ j. at n m h i j ⊗ side z j) ≡ v

  step-other : (i r : ℕ) (b : List D) → r ≢ i → side (backward_step h m n i b) r ≡ side b r
  unfolding backward_step
  step-other i r b ne = get_or-set_ne b i r _ d.nought (λ e. ne (sym e))

  step-size : (i : ℕ) (b : List D) → length (backward_step h m n i b) ≡ length b
  unfolding backward_step
  step-size i b = length-set b i _

  step-Row :
      (i : ℕ) (b : List D) → i < n → length b ≡ n → Row (backward_step h m n i b) i (side b i)
  unfolding backward_step
  step-Row i b hi size =
      let rest = n - (i + 1) in
      let f = λ (j : ℕ). at n m h i j ⊗ side b j in
      let left = for_range rest (i + 1) (λ j t. t ⊖ f j) (side b i) in
      let count : n - i ≡ suc rest = omega arith in
      let g = λ (j : ℕ). at n m h i j ⊗ side (set b i (left ⊘ at n m h i i)) j in
      ap (λ c. sum c i g) count
      ∙ ap₂ (λ s t. s ⊕ t)
          (ap (λ t. at n m h i i ⊗ t)
              (get_or-set_self b i (left ⊘ at n m h i i) d.nought (omega (arith, size)))
            ∙ mul-div x left (at n m h i i) (regular i hi))
          (sum_congr rest (i + 1) g f (λ j le lt.
            ap (λ t. at n m h i j ⊗ t)
              (get_or-set_ne b i j (left ⊘ at n m h i i) d.nought (λ e. omega arith))))
      ∙ for_range-sub x rest (i + 1) (side b i) f

  backward-later : (i r : ℕ) (b : List D) → i ≤ r → side (backward h m n i b) r ≡ side b r
  unfolding backward
  backward-later zero r b le = refl
  backward-later (suc i) r b le =
      backward-later i r (backward_step h m n i b) (omega arith)
      ∙ step-other i r b (λ e. omega arith)

  -- The results solve the rows of the upper triangle.
  pub backward-Row :
      (i : ℕ) (b : List D)
      → i ≤ n
      → length b ≡ n
      → (j : ℕ) → j < i
      → Row (backward h m n i b) j (side b j)
  unfolding backward
  backward-Row zero b le size j lt = absurd (omega arith)
  backward-Row (suc i) b le size j lt =
      let next = backward_step h m n i b in
      elim (ℕ_discrete j i) [
        | no other ↦
            backward-Row i next (omega arith) (step-size i b ∙ size) j (omega arith)
            ∙ step-other i j b other
        | yes here ↦ rw here (
            sum_congr (n - i) i _ _
              (λ c le' lt'. ap (λ t. at n m h i c ⊗ t) (backward-later i c next le'))
            ∙ step-Row i b (omega arith) size)
      ]
