-- ===== src/LeastSquares/Generic.antt =====
-- The default case of `least_squares_filter` of src/method_of_least_squares.c, the fit of any degree.
use motor_stand.Prelude.{
  ℕ, zero, suc, ◌+◌, ◌*◌, ◌^◌, ◌≤◌, ◌≡◌, sym, ap, ap₂, ◌∙◌, some, List, length, set, replicate,
  arith,
}
use motor_stand.Prelude.Arrays.{filled_lem}
use motor_stand.Prelude.Calls.{bind-some}
use motor_stand.Prelude.Loops.{for_range}
use motor_stand.Double.{Double, ◌⊗◌}
use motor_stand.Double.Exact.{IsExact, HasExactZero}
use motor_stand.Double.Sums.{sum, sum_congr}
use motor_stand.Matrix.{Memory, load, alloc_mat}
use motor_stand.Inverse.{dalloc_mat}
use motor_stand.LeastSquares.{
  at_, generic_round, prepare, solve, generic_order, least_squares_filter,
}
use motor_stand.LeastSquares.Normal.{total}
use motor_stand.LeastSquares.Equations.{solve-equations}
use motor_stand.LeastSquares.Prepared.{pointers, pointers-Apart, square_load, prepare-IsSummed}
use motor_stand.LeastSquares.Moments.{elements-IsSummed}

module _ {D : Type 0} ⦃d : Double D⦄ (garbage : ℕ → List D) (pow : D → ℕ → D) (x y : List D)
    (nmemb degree : ℕ) (h : Memory D) where
  -- The sums of the powers and their right side.
  abbrev pub power_sum : ℕ → D
  power_sum k = total nmemb (λ i. pow (at_ x i) k)

  abbrev pub right_side : ℕ → D
  right_side j = total nmemb (λ i. at_ y i ⊗ pow (at_ x i) j)

  -- The memory behind the loops.
  abbrev summed : Memory D
  summed =
      for_range nmemb 0 (λ i. generic_round pow (degree + 1) (pointers h) (at_ x i) (at_ y i))
        (prepare garbage (degree + 1) h).1

  generic_order-solve :
      (a : List D)
      → generic_order garbage pow x y nmemb degree h ≡ some a
      → (h' : Memory D) × (solve garbage (pointers h) summed ≡ some h')
        × (a
            ≡ for_range
                (degree + 1)
                0
                (λ i a. set a i (load h' (pointers h).co i))
                (replicate (degree + 1) d.nought))
  unfolding generic_order prepare dalloc_mat alloc_mat
  generic_order-solve a e =
      let q = pointers h in
      let result = λ (h' : Memory D).
        for_range (degree + 1) 0 (λ i a. set a i (load h' q.co i))
          (replicate (degree + 1) d.nought) in
      let (h', solved, given) = bind-some (solve garbage q summed) (λ h'. some (result h')) a e in
      let same : a ≡ result h' = ground arith in (h', solved, same)

  generic_order-normal_equations :
      IsExact D
      → HasExactZero D
      → ((size : ℕ) → length (garbage size) ≡ size)
      → 3 ≤ degree
      → (degree + 1) * (degree + 1) ≤ 2 ^ 32
      → (a : List D) → generic_order garbage pow x y nmemb degree h ≡ some a
      → (j : ℕ) → j ≤ degree
      → sum (degree + 1) 0 (λ k. power_sum (j + k) ⊗ at_ a k) ≡ right_side j
  generic_order-normal_equations exact z room many small a e j hj =
      let n = degree + 1 in
      let (h', solved, same) = generic_order-solve a e in
      let q = pointers h in
      let apart = pointers-Apart h in
      let v =
        elements-IsSummed n q apart pow (at_ x) (at_ y) nmemb 0 _ _ _
          (prepare-IsSummed garbage room n h small) in
      let list = filled_lem d.nought n (λ i. load h' q.co i) in
      sum_congr n 0 _ _ (λ k le lt.
        ap₂ (λ s t. s ⊗ t)
          (sym (
            square_load n summed q.eq j k v.system.eq.cols
            ∙ v.eq_sums j k (omega arith) (omega arith)))
          (ap (λ t. at_ t k) same ∙ list.1 k (omega arith)))
      ∙ solve-equations garbage exact z room n (omega arith) small q apart summed h' v.system solved
          j (omega arith)
      ∙ v.ac_sums j (omega arith)

module _ {D : Type 0} ⦃d : Double D⦄ where
  -- In exact arithmetic, where only zero compares equal to 0.0, with malloc returning blocks of the size
  -- asked for: if the fit of a degree of at least three, whose matrix has at most 2^32 entries, does not
  -- abort, then the coefficients a_k that it gives solve the normal equations: for each j up to the degree,
  -- the sum over k of a_k times the sum of the x_i to the power j + k is the sum of y_i times x_i to the
  -- power j.
  pub least_squares_filter-normal_equations :
      (garbage : ℕ → List D) (pow : D → ℕ → D) (x y : List D) (nmemb degree : ℕ) (h : Memory D)
      → IsExact D
      → HasExactZero D
      → ((size : ℕ) → length (garbage size) ≡ size)
      → 3 ≤ degree
      → (degree + 1) * (degree + 1) ≤ 2 ^ 32
      → (a : List D) → least_squares_filter garbage pow x y nmemb degree h ≡ some a
      → (j : ℕ) → j ≤ degree
      → sum (degree + 1) 0 (λ k. total nmemb (λ i. pow (at_ x i) (j + k)) ⊗ at_ a k)
        ≡ total nmemb (λ i. at_ y i ⊗ pow (at_ x i) j)
  unfolding least_squares_filter
  least_squares_filter-normal_equations garbage pow x y nmemb zero h exact z room many small a e j
        hj =
      absurd (omega arith)
  least_squares_filter-normal_equations garbage pow x y nmemb (suc zero) h exact z room many small a
        e j hj =
      absurd (omega arith)
  least_squares_filter-normal_equations garbage pow x y nmemb (suc (suc zero)) h exact z room many
        small a e j hj =
      absurd (omega arith)
  least_squares_filter-normal_equations garbage pow x y nmemb (suc (suc (suc n))) h exact z room
        many small a e j hj =
      let same : suc (suc (suc n)) ≡ n + 3 = omega arith in
      rw same (
        generic_order-normal_equations garbage pow x y nmemb (n + 3) h exact z room (omega arith)
          (rw (← same) small) a e j (omega arith))
