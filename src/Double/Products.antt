-- ===== src/Double/Products.antt =====
-- Sums of products in exact arithmetic, as `matmul` of src/numerical_basics.c computes them.
use native.Mathlib.Decide.{ℕ_discrete}
use motor_stand.Prelude.{
  ℕ, zero, suc, ◌+◌, ◌≤◌, ◌<◌, ◌≡◌, refl, sym, ap, ap₂, ◌∙◌, if◌then◌else◌, ◌==◌, ==_refl, ==_of_ne,
  arith,
}
use motor_stand.Prelude.Loops.{for_range}
use motor_stand.Double.{Double, ◌⊕◌, ◌⊗◌}
use motor_stand.Double.Exact.{IsExact, add_left_comm, add_zero, mul_zero, zero_mul}
use motor_stand.Double.Sums.{sum, sum_congr, sum_nought}

module _ {D : Type 0} ⦃d : Double D⦄ (x : IsExact D) where
  middle_four : (a b c e : D) → (a ⊕ b) ⊕ (c ⊕ e) ≡ (a ⊕ c) ⊕ (b ⊕ e)
  middle_four a b c e = simp (x.add_assoc, add_left_comm x)

  sum_add : (n i : ℕ) (f g : ℕ → D) → sum n i (λ k. f k ⊕ g k) ≡ sum n i f ⊕ sum n i g
  sum_add zero i f g = sym (x.zero_add d.nought)
  sum_add (suc n) i f g =
      ap (λ t. (f i ⊕ g i) ⊕ t) (sum_add n (i + 1) f g) ∙ middle_four (f i) (g i) _ _

  sum_scale : (n i : ℕ) (a : D) (f : ℕ → D) → a ⊗ sum n i f ≡ sum n i (λ k. a ⊗ f k)
  sum_scale zero i a f = mul_zero x a
  sum_scale (suc n) i a f = x.mul_add a (f i) _ ∙ ap (λ t. a ⊗ f i ⊕ t) (sum_scale n (i + 1) a f)

  sum_scale_right : (n i : ℕ) (a : D) (f : ℕ → D) → sum n i f ⊗ a ≡ sum n i (λ k. f k ⊗ a)
  sum_scale_right n i a f =
      x.mul_comm _ a ∙ sum_scale n i a f ∙ sum_congr n i _ _ (λ k le lt. x.mul_comm a (f k))

  sum_swap :
      (n i m j : ℕ) (f : ℕ → ℕ → D)
      → sum n i (λ k. sum m j (f k)) ≡ sum m j (λ l. sum n i (λ k. f k l))
  sum_swap zero i m j f = sym (sum_nought x m j (λ l. d.nought) (λ l le lt. refl))
  sum_swap (suc n) i m j f =
      ap (λ t. sum m j (f i) ⊕ t) (sum_swap n (i + 1) m j f)
      ∙ sym (sum_add m j (f i) (λ l. sum n (i + 1) (λ k. f k l)))

  abbrev pub identity : ℕ → ℕ → D
  identity i j = if i == j then d.unit else d.nought

  -- A row of the identity matrix picks an element.
  sum_identity :
      (n i j : ℕ) (b : ℕ → D) → i ≤ j → j < i + n → sum n i (λ l. identity j l ⊗ b l) ≡ b j
  sum_identity zero i j b le lt = absurd (omega arith)
  sum_identity (suc n) i j b le lt = elim (ℕ_discrete i j) [
    | yes here ↦
        let rest : sum n (i + 1) (λ l. identity j l ⊗ b l) ≡ d.nought =
          sum_nought x n (i + 1) _
            (λ l le' lt'. rw (==_of_ne j l (λ e. omega arith)) (zero_mul x (b l))) in
        ap₂ (λ s t. s ⊕ t) (rw (here, ==_refl j) (x.one_mul (b j))) rest ∙ add_zero x (b j)
    | no other ↦
        ap₂ (λ s t. s ⊕ t) (rw (==_of_ne j i (λ e. other (sym e))) (zero_mul x (b i)))
          (sum_identity n (i + 1) j b (omega arith) (omega arith))
        ∙ x.zero_add (b j)
  ]

  -- The product with a right inverse solves the equations.
  pub product-solves :
      (n : ℕ) (a inverse : ℕ → ℕ → D) (b c : ℕ → D)
      → ((i j : ℕ) → i < n → j < n → sum n 0 (λ k. a i k ⊗ inverse k j) ≡ identity i j)
      → ((k : ℕ) → k < n → c k ≡ sum n 0 (λ l. inverse k l ⊗ b l))
      → (i : ℕ) → i < n
      → sum n 0 (λ k. a i k ⊗ c k) ≡ b i
  product-solves n a inverse b c inverts product i hi =
      sum_congr n 0 _ _ (λ k le lt.
        ap (λ t. a i k ⊗ t) (product k (omega arith))
        ∙ sum_scale n 0 (a i k) (λ l. inverse k l ⊗ b l))
      ∙ sum_swap n 0 n 0 (λ k l. a i k ⊗ (inverse k l ⊗ b l))
      ∙ sum_congr n 0 _ _ (λ l le lt.
        sum_congr n 0 _ _ (λ k le' lt'. sym (x.mul_assoc (a i k) (inverse k l) (b l)))
        ∙ sym (sum_scale_right n 0 (b l) (λ k. a i k ⊗ inverse k l))
        ∙ ap (λ t. t ⊗ b l) (inverts i l hi (omega arith)))
      ∙ sum_identity n 0 i b (omega arith) (omega arith)

  -- The loop that adds the terms.
  pub for_range-add :
      (n i : ℕ) (s : D) (f : ℕ → D) → for_range n i (λ k t. t ⊕ f k) s ≡ s ⊕ sum n i f
  unfolding for_range
  for_range-add zero i s f = sym (add_zero x s)
  for_range-add (suc n) i s f =
      for_range-add n (i + 1) (s ⊕ f i) f ∙ x.add_assoc s (f i) (sum n (i + 1) f)
