-- ===== src/Lu/Substitution.antt =====
-- The forward substitution of `_solve_mat` of src/numerical_basics.c, with its rows exchanged on the way.
use native.Mathlib.Decide.{ℕ_discrete}
use motor_stand.Prelude.{
  ℕ, ◌+◌, ◌-◌, ◌≤◌, ◌<◌, ◌≡◌, ◌≢◌, refl, sym, ap, ◌∙◌, inl, inr, List, Bool-cases, ◌==◌, get_or,
  set, get_or-set_ne, get_or-set_self, length, length-set, arith,
}
use motor_stand.Prelude.Loops.{for_range}
use motor_stand.Double.{Double, ◌⊕◌, ◌⊖◌, ◌⊗◌}
use motor_stand.Double.Exact.{IsExact, HasExactZero, add_zero, mul_zero}
use motor_stand.Double.Sums.{sum, sum_congr, sum_nought, sum_split, for_range-sub}
use motor_stand.Matrix.{Memory}
use motor_stand.Lu.{Forward, forward_step}
use motor_stand.Lu.Rounds.{exchange, exchange_other, exchange_ne}
use motor_stand.Lu.Columns.{at}

module _ {D : Type 0} ⦃d : Double D⦄ where
  abbrev pub side : List D → ℕ → D
  side b i = get_or b i d.nought

  -- Before step `i`: the array has its size, and `ii` is behind the zeros that lead it.
  pub record IsStarted (n i : ℕ) (f : Forward D) : Type 0 where
    pub size : length f.x ≡ n
    pub zeros : f.ii ≡ 0 → (j : ℕ) → j < i → side f.x j ≡ d.nought
    pub start : f.ii ≢ 0 → (f.ii ≤ i) × ((j : ℕ) → j < f.ii - 1 → side f.x j ≡ d.nought)

  module _ (x : IsExact D) (e : HasExactZero D) (h : Memory D) (n m : ℕ) (indx : List ℕ) where
    -- What step `i` does, with row `p` as the pivot.
    pub record IsForward (i p : ℕ) (f g : Forward D) : Type 0 where
      pub next : IsStarted n (i + 1) g
      pub below : (r : ℕ) → r < i → side g.x r ≡ side f.x r
      pub moved : (r : ℕ) → i < r → r < n → side g.x r ≡ side f.x (exchange i p r)
      pub solved : side g.x i ⊕ sum i 0 (λ c. at n m h i c ⊗ side f.x c) ≡ side f.x p

    module _ (i p : ℕ) (f : Forward D) (s : IsStarted n i f) (ip : i ≤ p) (hp : p < n) where
      abbrev swapped : List D
      swapped = set f.x p (side f.x i)

      swapped-below : (r : ℕ) → r < i → side swapped r ≡ side f.x r
      swapped-below r lt = get_or-set_ne f.x p r _ d.nought (λ e. omega arith)

      -- The array of the step, with `v` as the result.
      set-below : (r : ℕ) (v : D) → r < i → side (set swapped i v) r ≡ side f.x r
      set-below r v lt =
          get_or-set_ne swapped i r v d.nought (λ e. omega arith) ∙ swapped-below r lt

      set_self : (v : D) → side (set swapped i v) i ≡ v
      set_self v =
          get_or-set_self swapped i v d.nought
            (omega (arith, length-set f.x p (side f.x i), s.size))

      set-moved :
          (r : ℕ) (v : D) → i < r → r < n → side (set swapped i v) r ≡ side f.x (exchange i p r)
      set-moved r v lt hr =
          get_or-set_ne swapped i r v d.nought (λ e. omega arith) ∙ elim (ℕ_discrete r p) [
            | yes here ↦
                rw (here, exchange_other i p)
                  (get_or-set_self f.x p (side f.x i) d.nought (omega (arith, s.size)))
            | no other ↦
                rw (exchange_ne i p r (λ e. omega arith) other)
                  (get_or-set_ne f.x p r (side f.x i) d.nought (λ e. other (sym e)))
          ]

      set-size : (v : D) → length (set swapped i v) ≡ n
      set-size v = length-set swapped i v ∙ length-set f.x p (side f.x i) ∙ s.size

      -- The result of the step from the sum, without its leading zeros.
      abbrev less : ℕ → D → D
      less j t = t ⊖ at n m h i j ⊗ side swapped j

      -- Without a term that is not zero nothing is subtracted.
      nothing-solved : f.ii ≡ 0 → side f.x p ⊕ sum i 0 (λ c. at n m h i c ⊗ side f.x c) ≡ side f.x p
      nothing-solved none =
          ap (λ t. side f.x p ⊕ t)
            (sum_nought x i 0 _
              (λ c le lt. ap (λ t. at n m h i c ⊗ t) (s.zeros none c (omega arith)) ∙ mul_zero x _))
          ∙ add_zero x _

      rest-solved :
          f.ii ≢ 0
          → for_range (i - (f.ii - 1)) (f.ii - 1) less (side f.x p)
              ⊕ sum i 0 (λ c. at n m h i c ⊗ side f.x c)
            ≡ side f.x p
      rest-solved some =
          let (bound, leading) = s.start some in
          let lead = f.ii - 1 in
          let f' = λ (c : ℕ). at n m h i c ⊗ side f.x c in
          let count : i ≡ lead + (i - lead) = omega arith in
          let terms : sum i 0 f' ≡ sum (i - lead) lead (λ j. at n m h i j ⊗ side swapped j) =
            ap (λ c. sum c 0 f') count
            ∙ sum_split x lead (i - lead) 0 lead f' (omega arith)
            ∙ ap (λ t. t ⊕ sum (i - lead) lead f')
                (sum_nought x lead 0 f'
                  (λ c le lt. ap (λ t. at n m h i c ⊗ t) (leading c (omega arith)) ∙ mul_zero x _))
            ∙ x.zero_add _
            ∙ sum_congr (i - lead) lead f' _
                (λ j le lt. ap (λ t. at n m h i j ⊗ t) (sym (swapped-below j (omega arith)))) in
          ap (λ t. for_range (i - lead) lead less (side f.x p) ⊕ t) terms
          ∙ for_range-sub x (i - lead) lead (side f.x p) (λ j. at n m h i j ⊗ side swapped j)

      step-IsForward :
          (v : D) (ii : ℕ)
          → v ⊕ sum i 0 (λ c. at n m h i c ⊗ side f.x c) ≡ side f.x p
          → IsStarted n (i + 1) (record { x = set swapped i v; ii = ii })
          → IsForward i p f (record { x = set swapped i v; ii = ii })
      step-IsForward v ii solved next = record {
        next = next;
        below = λ r lt. set-below r v lt;
        moved = λ r lt hr. set-moved r v lt hr;
        solved = ap (λ t. t ⊕ sum i 0 (λ c. at n m h i c ⊗ side f.x c)) (set_self v) ∙ solved;
      }

      pub forward_step-IsForward :
          get_or indx i 0 ≡ p → IsForward i p f (forward_step h m n indx i f)
      unfolding forward_step
      forward_step-IsForward at_p = elim (Bool-cases (f.ii == 0)) [
        | inr some ↦
            let nonzero : f.ii ≢ 0 = λ e. ground arith in
            let (bound, leading) = s.start nonzero in
            rw (at_p, some)
              (step-IsForward _ f.ii (rest-solved nonzero) (record {
                size = set-size _;
                zeros = λ none. absurd (nonzero none);
                start = λ _. (omega arith, λ j lt. set-below j _ (omega arith) ∙ leading j lt);
              }))
        | inl none ↦
            let is_zero : f.ii ≡ 0 = ground arith in
            elim (Bool-cases (d.eq (side f.x p) d.nought)) [
              | inl vanishes ↦
                  rw (at_p, none, vanishes)
                    (step-IsForward _ 0 (nothing-solved is_zero) (record {
                      size = set-size _;
                      zeros = λ _ j lt. elim (ℕ_discrete j i) [
                        | yes here ↦ rw here (set_self _ ∙ e.eq_nought _ vanishes)
                        | no other ↦ set-below j _ (omega arith) ∙ s.zeros is_zero j (omega arith)
                      ];
                      start = λ some. absurd (some refl);
                    }))
              | inr remains ↦
                  rw (at_p, none, remains)
                    (step-IsForward _ (i + 1) (nothing-solved is_zero) (record {
                      size = set-size _;
                      zeros = λ w. absurd (omega arith);
                      start = λ _. (
                        omega arith,
                        λ j lt. set-below j _ (omega arith) ∙ s.zeros is_zero j (omega arith),
                      );
                    }))
            ]
      ]
