-- ===== src/Double/Sums.antt =====
-- Finite sums in exact arithmetic, and the loops of src/numerical_basics.c that subtract the terms of one.
use motor_stand.Prelude.{ℕ, zero, suc, ◌+◌, ◌≤◌, ◌<◌, ◌≡◌, refl, sym, ap, ap₂, ◌∙◌, arith}
use motor_stand.Prelude.Loops.{for_range}
use motor_stand.Double.{Double, ◌⊕◌, ◌⊖◌, ◌⊗◌}
use motor_stand.Double.Exact.{IsExact, add_left_comm, add_zero, mul_zero, add_mul}

module _ {D : Type 0} ⦃d : Double D⦄ where
  -- The sum of the `n` terms from `i` on.
  abbrev pub sum : ℕ → ℕ → (ℕ → D) → D
  sum zero i f = d.nought
  sum (suc n) i f = f i ⊕ sum n (i + 1) f

  pub sum_congr :
      (n i : ℕ) (f g : ℕ → D) → ((j : ℕ) → i ≤ j → j < i + n → f j ≡ g j) → sum n i f ≡ sum n i g
  sum_congr zero i f g same = refl
  sum_congr (suc n) i f g same =
      ap₂ (λ a b. a ⊕ b) (same i (omega arith) (omega arith))
        (sum_congr n (i + 1) f g (λ j le lt. same j (omega arith) (omega arith)))

  module _ (x : IsExact D) where
    pub sub_add : (s t : D) → (s ⊖ t) ⊕ t ≡ s
    sub_add s t =
        ap (λ r. r ⊕ t) (x.sub_eq s t)
        ∙ x.add_assoc s (d.neg t) t
        ∙ ap (λ r. s ⊕ r) (x.add_comm _ t ∙ x.add_neg t)
        ∙ add_zero x s

    -- A term of one row, reduced by that of another.
    reduced : (a l b y : D) → (a ⊖ l ⊗ b) ⊗ y ⊕ l ⊗ (b ⊗ y) ≡ a ⊗ y
    reduced a l b y =
        ap (λ t. (a ⊖ l ⊗ b) ⊗ y ⊕ t) (sym (x.mul_assoc l b y))
        ∙ sym (add_mul x (a ⊖ l ⊗ b) (l ⊗ b) y)
        ∙ ap (λ t. t ⊗ y) (sub_add a (l ⊗ b))

    middle_four : (a b c e r : D) → r ≡ c ⊕ e → (a ⊕ b) ⊕ r ≡ (a ⊕ c) ⊕ (b ⊕ e)
    middle_four a b c e r eq = rw eq (simp (x.add_assoc, add_left_comm x))

    -- A sum whose terms are zero.
    pub sum_nought :
        (n i : ℕ) (f : ℕ → D)
        → ((j : ℕ) → i ≤ j → j < i + n → f j ≡ d.nought)
        → sum n i f ≡ d.nought
    sum_nought zero i f none = refl
    sum_nought (suc n) i f none =
        ap₂ (λ a b. a ⊕ b) (none i (omega arith) (omega arith))
          (sum_nought n (i + 1) f (λ j le lt. none j (omega arith) (omega arith)))
        ∙ x.zero_add d.nought

    pub sum_split : (n k i j : ℕ) (f : ℕ → D) → j ≡ i + n → sum (n + k) i f ≡ sum n i f ⊕ sum k j f
    sum_split zero k i j f e =
        let count : 0 + k ≡ k = omega arith in
        let here : i ≡ j = omega arith in rw (count, here) (sym (x.zero_add (sum k j f)))
    sum_split (suc n) k i j f e =
        let count : suc n + k ≡ suc (n + k) = omega arith in
        rw count (
          ap (λ t. f i ⊕ t) (sum_split n k (i + 1) j f (omega arith)) ∙ sym (x.add_assoc (f i) _ _))

    pub sum_last : (n i j : ℕ) (f : ℕ → D) → j ≡ i + n → sum (suc n) i f ≡ sum n i f ⊕ f j
    sum_last n i j f e =
        let count : suc n ≡ n + 1 = omega arith in
        ap (λ c. sum c i f) count
        ∙ sum_split n 1 i j f e
        ∙ ap (λ t. sum n i f ⊕ t) (add_zero x (f j))

    -- Taking a multiple of one row from another.
    pub sum_reduce :
        (n i : ℕ) (l : D) (a b y : ℕ → D)
        → sum n i (λ j. (a j ⊖ l ⊗ b j) ⊗ y j) ⊕ l ⊗ sum n i (λ j. b j ⊗ y j)
          ≡ sum n i (λ j. a j ⊗ y j)
    sum_reduce zero i l a b y = x.zero_add _ ∙ mul_zero x l
    sum_reduce (suc n) i l a b y =
        middle_four _ _ _ _ _ (x.mul_add l _ _)
        ∙ ap₂ (λ s t. s ⊕ t) (reduced (a i) l (b i) (y i)) (sum_reduce n (i + 1) l a b y)

    -- The loop that subtracts the terms.
    pub for_range-sub :
        (n i : ℕ) (s : D) (f : ℕ → D) → for_range n i (λ j t. t ⊖ f j) s ⊕ sum n i f ≡ s
    unfolding for_range
    for_range-sub zero i s f = add_zero x s
    for_range-sub (suc n) i s f =
        add_left_comm x _ (f i) _
        ∙ ap (λ t. f i ⊕ t) (for_range-sub n (i + 1) (s ⊖ f i) f)
        ∙ x.add_comm (f i) _
        ∙ sub_add s (f i)
