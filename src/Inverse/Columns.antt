-- ===== src/Inverse/Columns.antt =====
-- The columns of the inverse in `matinv_safe` of src/numerical_basics.c, solved one by one.
use native.Mathlib.Decide.{ℕ_discrete}
use motor_stand.Prelude.{
  ℕ, suc, ◌≤◌, ◌<◌, ◌≡◌, ◌≢◌, refl, sym, ap, ◌∙◌, List, length, get_or, set, arith, replicate,
}
use motor_stand.Prelude.Arrays.{filled_lem}
use motor_stand.Prelude.Loops.{for_range, for_range_inv}
use motor_stand.Double.{Double, ◌⊗◌}
use motor_stand.Double.Sums.{sum, sum_congr}
use motor_stand.Matrix.{Memory, index, load, store}
use motor_stand.Matrix.Store.{Same, Same-refl, Same-store, Same-trans}
use motor_stand.Lu.{solve_mat}
use motor_stand.Lu.Columns.{IsSquareArray, IsSquareArray-store, at, at-store_self, at-store_ne}
use motor_stand.Lu.Substitution.{side}
use motor_stand.Lu.Others.{solve_mat_congr}
use motor_stand.Inverse.{solve_column}

module _ {D : Type 0} ⦃d : Double D⦄ (n ainv : ℕ) where
  abbrev gathered : Memory D → ℕ → List D
  gathered h j =
      let gather = λ (i : ℕ) (xx : List D). set xx i (load h ainv (index n i j)) in
      for_range n 0 gather (replicate n d.nought)

  -- The array `xx` holds the column.
  gathered_lem :
      (h : Memory D) (j : ℕ)
      → (length (gathered h j) ≡ n) × ((i : ℕ) → i < n → side (gathered h j) i ≡ at n ainv h i j)
  gathered_lem h j = filled_lem d.nought n (λ i. load h ainv (index n i j))

  -- The first `k` entries of column `j` are those of `xx`, everything else is as before.
  record IsScattered (before : Memory D) (j : ℕ) (xx : List D) (k : ℕ) (h : Memory D) : Type 0 where
    square : IsSquareArray D n ainv h
    same : Same D ainv before h
    others : (r c : ℕ) → r < n → c < n → c ≢ j → at n ainv h r c ≡ at n ainv before r c
    column : (r : ℕ) → r < n → r < k → at n ainv h r j ≡ side xx r

  scattered_lem :
      (h : Memory D) (j : ℕ) (xx : List D)
      → IsSquareArray D n ainv h
      → j < n
      → IsScattered h j xx n
          (for_range n 0 (λ i g. store ainv (index n i j) (get_or xx i d.nought) g) h)
  scattered_lem h j xx s hj =
      for_range_inv (IsScattered h j xx) _ n
        (λ k g hk v. record {
          square = IsSquareArray-store n ainv g (index n k j) (side xx k) v.square;
          same = Same-store {h' = g} (index n k j) (side xx k) v.same;
          others = λ r c hr hc ne.
              at-store_ne n ainv g k j r c (side xx k) v.square hk hj hr hc (λ e. ne (sym e.1))
              ∙ v.others r c hr hc ne;
          column = λ r hr lt. elim (ℕ_discrete r k) [
            | yes here ↦ rw here (at-store_self n ainv g k j (side xx k) v.square hk hj)
            | no other ↦
                at-store_ne n ainv g k j r j (side xx k) v.square hk hj hr hj (λ e. other (sym e.0))
                ∙ v.column r hr (omega arith)
          ];
        })
        n 0 h (omega arith)
        (record {
          square = s;
          same = Same-refl ainv h;
          others = λ r c hr hc ne. refl;
          column = λ r hr lt. absurd (omega arith);
        })

  solve_column-IsScattered :
      (lu j : ℕ) (indx : List ℕ) (h : Memory D)
      → IsSquareArray D n ainv h
      → j < n
      → IsScattered h j (solve_mat h lu indx (gathered h j)) n (solve_column ainv lu indx n j h)
  unfolding solve_column
  solve_column-IsScattered lu j indx h s hj =
      scattered_lem h j (solve_mat h lu indx (gathered h j)) s hj

  module _ (lu : ℕ) (indx : List ℕ) (base : Memory D) (given wanted : ℕ → ℕ → D) (apart : lu ≢ ainv)
      (solves : (b : List D)
        → length b ≡ n
        → (i : ℕ) → i < n
        → sum n 0 (λ k. given i k ⊗ side (solve_mat base lu indx b) k) ≡ side b i) where
    -- The columns below `j` solve the equations, the others hold the right sides.
    pub record IsSolved (j : ℕ) (h : Memory D) : Type 0 where
      pub square : IsSquareArray D n ainv h
      pub same : Same D ainv base h
      pub done :
          (i c : ℕ)
          → i < n
          → c < n
          → c < j
          → sum n 0 (λ k. given i k ⊗ at n ainv h k c) ≡ wanted i c
      pub left : (i c : ℕ) → i < n → c < n → j ≤ c → at n ainv h i c ≡ wanted i c

    column_solved :
        (j : ℕ) (h g : Memory D)
        → j < n
        → IsSolved j h
        → IsScattered h j (solve_mat h lu indx (gathered h j)) n g
        → (i : ℕ) → i < n
        → sum n 0 (λ k. given i k ⊗ at n ainv g k j) ≡ wanted i j
    column_solved j h g hj v after i hi =
        let b = gathered h j in
        let (size, entries) = gathered_lem h j in
        let solution = solve_mat_congr h base lu indx b (v.same.others lu apart) in
        sum_congr n 0 _ _ (λ k le lt.
          ap (λ t. given i k ⊗ t)
            (after.column k (omega arith) (omega arith) ∙ ap (λ x. side x k) solution))
        ∙ solves b size i hi
        ∙ entries i hi
        ∙ v.left i j hi hj (omega arith)

    solve_column-IsSolved :
        (j : ℕ) (h : Memory D)
        → j < n
        → IsSolved j h
        → IsSolved (suc j) (solve_column ainv lu indx n j h)
    solve_column-IsSolved j h hj v =
        let after = solve_column-IsScattered lu j indx h v.square hj in
        record {
          square = after.square;
          same = Same-trans v.same after.same;
          done = λ i c hi hc lt. elim (ℕ_discrete c j) [
            | yes here ↦ rw here (column_solved j h _ hj v after i hi)
            | no other ↦
                sum_congr n 0 _ _
                  (λ k le lt'. ap (λ t. given i k ⊗ t) (after.others k c (omega arith) hc other))
                ∙ v.done i c hi hc (omega arith)
          ];
          left = λ i c hi hc le.
              after.others i c hi hc (λ e. omega arith) ∙ v.left i c hi hc (omega arith);
        }

    pub solve_columns-IsSolved :
        (h : Memory D) → IsSolved 0 h → IsSolved n (for_range n 0 (solve_column ainv lu indx n) h)
    solve_columns-IsSolved h v =
        for_range_inv IsSolved (solve_column ainv lu indx n) n solve_column-IsSolved n 0 h
          (omega arith) v
