-- ===== src/LeastSquares.antt =====
-- src/method_of_least_squares.c: polynomials of degree 0, 1, 2 and any degree, fitted by the normal
-- equations. The arrays `x` and `y` have `nmemb` elements. What `malloc` returns holds the values of a
-- parameter, and so does the memory before a call; `none` is a failed assertion.
pub mod Normal
pub mod Equations
pub mod Moments
pub mod Prepared
pub mod Generic
pub mod FirstOrder
mod Tests
use motor_stand.Prelude.{
  ℕ, zero, suc, ◌+◌, ◌*◌, Option, some, List, [], ◌∷◌, get_or, replicate, set,
}
use motor_stand.Prelude.Int.{pos}
use motor_stand.Prelude.Loops.{for_range}
use motor_stand.Prelude.Calls.{◌>>=◌}
use motor_stand.Double.{Double, ◌⊕◌, ◌⊗◌, ◌⊘◌}
use motor_stand.Matrix.{Memory, load, store, matzro, mattrn, matmul}
use motor_stand.Inverse.{dalloc_mat, matinv}

-- The pointers of a fit: the equations, their right side, the inverse and the result.
pub record Pointers : Type 0 where
  pub eq : ℕ
  pub ac : ℕ
  pub ei : ℕ
  pub co : ℕ

module _ {D : Type 0} ⦃d : Double D⦄ where
  abbrev pub at_ : List D → ℕ → D
  at_ x i = get_or x i d.nought

  -- `p->vals[i] += v`
  abbrev pub add_to : ℕ → ℕ → D → Memory D → Memory D
  add_to p i v h = store p i (load h p i ⊕ v) h

  -- `zero_order_least_squares_filter`; the result is `*a0`.
  pub zero_order : List D → ℕ → D
  zero_order y nmemb = for_range nmemb 0 (λ i a0. a0 ⊕ at_ y i) d.nought ⊘ d.of_long (pos nmemb)

  -- One round of the loop of `first_order_least_squares_filter`.
  pub first_round : Pointers → D → D → Memory D → Memory D
  first_round p x y h =
      let h = add_to p.eq 1 x h in
      let h = add_to p.eq 2 x h in
      let h = add_to p.eq 3 (x ⊗ x) h in let h = add_to p.ac 0 y h in add_to p.ac 1 (y ⊗ x) h

  -- One round of the loop of `second_order_least_squares_filter`.
  pub second_round : Pointers → D → D → Memory D → Memory D
  second_round p x y h =
      let h = add_to p.eq 1 x h in
      let h = add_to p.eq 2 (x ⊗ x) h in
      let h = add_to p.eq 3 x h in
      let h = add_to p.eq 4 (x ⊗ x) h in
      let h = add_to p.eq 5 (x ⊗ x ⊗ x) h in
      let h = add_to p.eq 6 (x ⊗ x) h in
      let h = add_to p.eq 7 (x ⊗ x ⊗ x) h in
      let h = add_to p.eq 8 (x ⊗ x ⊗ x ⊗ x) h in
      let h = add_to p.ac 0 y h in let h = add_to p.ac 1 (x ⊗ y) h in add_to p.ac 2 (x ⊗ x ⊗ y) h

  -- One round of the loop over `i` of `least_squares_filter`, of `n` unknowns; `pow` has a whole number
  -- as its exponent.
  pub generic_round : (D → ℕ → D) → ℕ → Pointers → D → D → Memory D → Memory D
  generic_round pow n p x y h =
      for_range n 0
        (λ j h.
          let h = for_range n 0 (λ k h. add_to p.eq (k + j * n) (pow x (j + k)) h) h in
          add_to p.ac j (y ⊗ pow x j) h)
        h

  module _ (garbage : ℕ → List D) where
    -- `eq`, `ac`, `ei` and `co`, for `n` unknowns, the first two zeroed.
    pub prepare : ℕ → Memory D → Pointers × Memory D
    prepare n h =
        let (eq, h) = dalloc_mat garbage n n h in
        let (ac, h) = dalloc_mat garbage n 1 h in
        let (ei, h) = dalloc_mat garbage n n h in
        let (co, h) = dalloc_mat garbage n 1 h in
        (record { eq = eq; ac = ac; ei = ei; co = co }, matzro ac (matzro eq h))

    -- `matmul(matinv(eq,ei),ac,co)`; the memory holds the result at `co`.
    pub solve : Pointers → Memory D → Option (Memory D)
    solve p h = do h' ← matinv garbage p.eq p.ei h; matmul p.ei p.ac p.co h'

    -- `first_order_least_squares_filter`; the results are `*a0` and `*a1`.
    pub first_order : List D → List D → ℕ → Memory D → Option (D × D)
    first_order x y nmemb h = do
      let (p, h) = prepare 2 h
      let h = store p.eq 0 (d.of_long (pos nmemb)) h
      h' ← solve p (for_range nmemb 0 (λ i. first_round p (at_ x i) (at_ y i)) h)
      some (load h' p.co 0, load h' p.co 1)

    -- `second_order_least_squares_filter`
    pub second_order : List D → List D → ℕ → Memory D → Option (D × D × D)
    second_order x y nmemb h = do
      let (p, h) = prepare 3 h
      let h = store p.eq 0 (d.of_long (pos nmemb)) h
      h' ← solve p (for_range nmemb 0 (λ i. second_round p (at_ x i) (at_ y i)) h)
      some (load h' p.co 0, load h' p.co 1, load h' p.co 2)

    -- `stable_first_order_least_squares`, its matrices named by their pointers.
    pub stable_first_order : List D → List D → ℕ → Memory D → Option (D × D)
    stable_first_order x y nmemb h = do
      let (a, h) = dalloc_mat garbage nmemb 2 h
      let (xv, h) = dalloc_mat garbage 2 1 h
      let (bv, h) = dalloc_mat garbage nmemb 1 h
      let (at, h) = dalloc_mat garbage 2 nmemb h
      let (aat, h) = dalloc_mat garbage nmemb nmemb h
      let (aat_inv, h) = dalloc_mat garbage nmemb nmemb h
      let (aat_inv_at, h) = dalloc_mat garbage 2 nmemb h
      let fill = λ (i : ℕ) (h : Memory D).
          store bv i (at_ y i) (store a (i * 2 + 1) d.unit (store a (i * 2) (at_ x i) h))
      h ← mattrn a at (for_range nmemb 0 fill h)
      h ← matmul a at aat h
      h ← matinv garbage aat aat_inv h
      h ← matmul aat_inv at aat_inv_at h
      h ← matmul aat_inv_at bv xv h
      some (load h xv 0, load h xv 1)

    -- The default case of `least_squares_filter`, for the degree `n`: the coefficients in order.
    pub generic_order : (D → ℕ → D) → List D → List D → ℕ → ℕ → Memory D → Option (List D)
    generic_order pow x y nmemb degree h = do
      let n = degree + 1
      let (p, h) = prepare n h
      h' ← solve p (for_range nmemb 0 (λ i. generic_round pow n p (at_ x i) (at_ y i)) h)
      some (for_range n 0 (λ i a. set a i (load h' p.co i)) (replicate n d.nought))

    -- `least_squares_filter`: what is written to `a`.
    pub least_squares_filter : (D → ℕ → D) → List D → List D → ℕ → ℕ → Memory D → Option (List D)
    least_squares_filter pow x y nmemb zero h = some (zero_order y nmemb ∷ [])
    least_squares_filter pow x y nmemb (suc zero) h = do
      (a0, a1) ← first_order x y nmemb h
      some (a0 ∷ a1 ∷ [])
    least_squares_filter pow x y nmemb (suc (suc zero)) h = do
      (a0, a1, a2) ← second_order x y nmemb h
      some (a0 ∷ a1 ∷ a2 ∷ [])
    least_squares_filter pow x y nmemb (suc (suc (suc n))) h = generic_order pow x y nmemb (n + 3) h
