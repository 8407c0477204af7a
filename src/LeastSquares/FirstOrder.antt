-- ===== src/LeastSquares/FirstOrder.antt =====
-- `first_order_least_squares_filter` of src/method_of_least_squares.c from its allocations to its results.
use motor_stand.Prelude.{
  ℕ, ◌+◌, ◌≡◌, refl, sym, ap, ◌∙◌, ◌≢◌, true, false, none, List, ==_refl, ==_of_ne, length, arith,
  get_or,
}
use motor_stand.Prelude.Int.{pos}
use motor_stand.Prelude.Loops.{for_range}
use motor_stand.Prelude.Calls.{Succeeds, Succeeds-bind, Succeeds-map}
use motor_stand.Double.{Double, ◌⊕◌, ◌⊗◌}
use motor_stand.Double.Exact.{IsExact, cramer}
use motor_stand.Matrix.{Memory, store, matzro, alloc_mat}
use motor_stand.Matrix.Small.{
  square_2, column_2, matzro_square, matzro_column, matzro_square_other, matzro_column_other,
}
use motor_stand.Inverse.{dalloc_mat}
use motor_stand.Inverse.Closed.{det, matinv_2-singular}
use motor_stand.LeastSquares.{Pointers, at_, first_round, prepare, solve, first_order}
use motor_stand.LeastSquares.Normal.{
  IsSquare-block, IsColumn-block, Apart, Holds, total, first_rounds-Holds, solution, solve_2,
}

module _ {D : Type 0} ⦃d : Double D⦄ (garbage : ℕ → List D) (h : Memory D) where
  abbrev pointers : Pointers
  pointers = record { eq = h.next; ac = h.next + 1; ei = h.next + 1 + 1; co = h.next + 1 + 1 + 1 }

  pointers-Apart : Apart pointers
  pointers-Apart = record {
    eq_ac = λ q. omega arith;
    eq_ei = λ q. omega arith;
    eq_co = λ q. omega arith;
    ac_ei = λ q. omega arith;
    ac_co = λ q. omega arith;
    ei_co = λ q. omega arith;
  }

  zeroed :
      (p : Pointers) (apart : Apart p) (h' : Memory D) (a b c e u v : D)
      → Holds D p h' (square_2 a b c e) (column_2 u v)
      → Holds D p
          (matzro p.ac (matzro p.eq h'))
          (square_2 d.nought d.nought d.nought d.nought)
          (column_2 d.nought d.nought)
  zeroed p apart h' a b c e u v k =
      let other = λ (t : ℕ) (ne : t ≢ p.eq). matzro_square_other h' p.eq t a b c e ne k.eq_cell in
      let ac_cell = other p.ac (λ q. apart.eq_ac (sym q)) ∙ k.ac_cell in
      let away = λ (t : ℕ) (ne : t ≢ p.eq) (ne' : t ≢ p.ac).
        matzro_column_other (matzro p.eq h') p.ac t u v ne' ac_cell ∙ other t ne in
      record {
        eq_cell =
            matzro_column_other (matzro p.eq h') p.ac p.eq u v apart.eq_ac ac_cell
            ∙ matzro_square h' p.eq a b c e k.eq_cell;
        ac_cell = matzro_column (matzro p.eq h') p.ac u v ac_cell;
        ei_cell = rw (away p.ei (λ q. apart.eq_ei (sym q)) (λ q. apart.ac_ei (sym q))) k.ei_cell;
        co_cell = rw (away p.co (λ q. apart.eq_co (sym q)) (λ q. apart.ac_co (sym q))) k.co_cell;
      }

  prepare-Holds :
      length (garbage 4) ≡ 4
      → length (garbage 2) ≡ 2
      → Holds D pointers
          (prepare garbage 2 h).1
          (square_2 d.nought d.nought d.nought d.nought)
          (column_2 d.nought d.nought)
  unfolding prepare dalloc_mat alloc_mat
  prepare-Holds four two =
      let (a, b, c, e, square) = IsSquare-block (garbage 4) four in
      let (u, v, column) = IsColumn-block (garbage 2) two in
      let q = pointers in
      let co_ei = ==_of_ne q.co q.ei (λ e. omega arith) in
      let co_ac = ==_of_ne q.co q.ac (λ e. omega arith) in
      let co_eq = ==_of_ne q.co q.eq (λ e. omega arith) in
      let ei_ac = ==_of_ne q.ei q.ac (λ e. omega arith) in
      let ei_eq = ==_of_ne q.ei q.eq (λ e. omega arith) in
      let ac_eq = ==_of_ne q.ac q.eq (λ e. omega arith) in
      zeroed q pointers-Apart _ a b c e u v (record {
        eq_cell = rw (co_eq, ei_eq, ac_eq, ==_refl q.eq) square;
        ac_cell = rw (co_ac, ei_ac, ==_refl q.ac) column;
        ei_cell = rw (co_ei, ==_refl q.ei) (a, b, c, e, square);
        co_cell = rw (==_refl q.co) (u, v, column);
      })

  -- The number of elements, stored behind the preparation.
  counted :
      (p : Pointers) (apart : Apart p) (h' : Memory D) (n a b c e u v : D)
      → Holds D p h' (square_2 a b c e) (column_2 u v)
      → Holds D p (store p.eq 0 n h') (square_2 n b c e) (column_2 u v)
  counted p apart h' n a b c e u v k = record {
    eq_cell = rw (==_refl p.eq, k.eq_cell) refl;
    ac_cell = rw (==_of_ne p.eq p.ac apart.eq_ac) k.ac_cell;
    ei_cell = rw (==_of_ne p.eq p.ei apart.eq_ei) k.ei_cell;
    co_cell = rw (==_of_ne p.eq p.co apart.eq_co) k.co_cell;
  }

  module _ (x y : List D) (nmemb : ℕ) where
    abbrev pub n : D
    n = d.of_long (pos nmemb)

    abbrev pub sum_x : D
    sum_x = total nmemb (at_ x)

    abbrev pub sum_xx : D
    sum_xx = total nmemb (λ i. at_ x i ⊗ at_ x i)

    abbrev pub sum_y : D
    sum_y = total nmemb (at_ y)

    abbrev pub sum_yx : D
    sum_yx = total nmemb (λ i. at_ y i ⊗ at_ x i)

    -- The memory behind the loop.
    summed : Memory D
    summed =
        for_range nmemb 0 (λ i. first_round pointers (at_ x i) (at_ y i))
          (store pointers.eq 0 n (prepare garbage 2 h).1)

    filled :
        length (garbage 4) ≡ 4
        → length (garbage 2) ≡ 2
        → Holds D pointers summed (square_2 n sum_x sum_x sum_xx) (column_2 sum_y sum_yx)
    unfolding summed
    filled four two =
        let z = d.nought in
        first_rounds-Holds pointers pointers-Apart (at_ x) (at_ y) nmemb 0 _ n z z z z z (
          counted pointers pointers-Apart (prepare garbage 2 h).1 n z z z z z z
            (prepare-Holds four two))

    -- In any arithmetic, with malloc returning blocks of the size asked for: if the determinant of the
    -- normal equations does not compare equal to zero, the filter returns, and its results are those of
    -- the closed form, computed from the sums of the elements in their order.
    pub first_order-solution :
        length (garbage 4) ≡ 4
        → length (garbage 2) ≡ 2
        → d.eq (det n sum_x sum_x sum_xx) d.nought ≡ false
        → Succeeds
            (λ a. column_2 a.0 a.1 ≡ solution n sum_x sum_x sum_xx sum_y sum_yx)
            (first_order garbage x y nmemb h)
    unfolding first_order prepare dalloc_mat alloc_mat summed
    first_order-solution four two regular =
        let q = pointers in
        Succeeds-bind _ (solve garbage q _) _
          (solve_2 garbage _ q pointers-Apart n sum_x sum_x sum_xx sum_y sum_yx (filled four two)
            regular)
          (λ h' e. rw e refl)

    -- In exact arithmetic, with malloc returning blocks of the size asked for: if the determinant of the
    -- normal equations is not zero, the filter returns, and its results, the intercept `a0` and the slope
    -- `a1`, solve these equations.
    pub first_order-normal_equations :
        IsExact D
        → length (garbage 4) ≡ 4
        → length (garbage 2) ≡ 2
        → d.eq (det n sum_x sum_x sum_xx) d.nought ≡ false
        → Succeeds
            (λ a. (n ⊗ a.0 ⊕ sum_x ⊗ a.1 ≡ sum_y) × (sum_x ⊗ a.0 ⊕ sum_xx ⊗ a.1 ≡ sum_yx))
            (first_order garbage x y nmemb h)
    first_order-normal_equations exact four two regular =
        Succeeds-map (first_order garbage x y nmemb h) (first_order-solution four two regular)
          (λ a e.
            let e₀ = ap (λ t. get_or t.vals 0 d.nought) e in
            let e₁ = ap (λ t. get_or t.vals 1 d.nought) e in
            rw (e₀, e₁) (cramer exact n sum_x sum_x sum_xx sum_y sum_yx regular))

    -- With malloc returning blocks of the size asked for: if the determinant compares equal to zero, the
    -- assertion of `matinv` fails.
    pub first_order-singular :
        length (garbage 4) ≡ 4
        → length (garbage 2) ≡ 2
        → d.eq (det n sum_x sum_x sum_xx) d.nought ≡ true
        → first_order garbage x y nmemb h ≡ none
    unfolding first_order prepare dalloc_mat alloc_mat solve summed
    first_order-singular four two singular =
        let q = pointers in
        let k = filled four two in
        let (w, x', y', z', room) = k.ei_cell in
        rw
          (matinv_2-singular garbage summed n sum_x sum_x sum_xx q.eq q.ei w x' y' z'
            pointers-Apart.eq_ei k.eq_cell room singular)
          refl
