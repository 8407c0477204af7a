-- ===== src/Lu/Equations.antt =====
-- `_solve_mat` of src/numerical_basics.c after `_lu_decomp_mat` solves the equations of the matrix.
use motor_stand.Prelude.{
  ℕ, ◌+◌, ◌-◌, ◌*◌, ◌^◌, ◌≤◌, ◌<◌, ◌≡◌, refl, sym, ap, ◌∙◌, inl, inr, some, List, Option-cases,
  Bool-cases, ◌==◌, ==_iff, length, arith, replicate,
}
use motor_stand.Prelude.Loops.{for_range}
use motor_stand.Double.{Double, ◌⊗◌}
use motor_stand.Double.Exact.{IsExact, HasExactZero}
use motor_stand.Double.Sums.{sum, sum_congr}
use motor_stand.Matrix.{Memory, load, matdup}
use motor_stand.Matrix.Entries.{IsMat, SameShape, entry, index-row_major, IsMat-Same}
use motor_stand.Matrix.Elementwise.{matdup-Gives, matdup-SameShape}
use motor_stand.Lu.{
  Work, Forward, decompose_from, decompose_copy, lu_decomp_mat, decomposed, scales, forward_step,
  backward, solve_mat,
}
use motor_stand.Lu.Pivots.{decompose_copy-Pivoted}
use motor_stand.Lu.Rounds.{Rounds-Holds}
use motor_stand.Lu.Columns.{IsSquareArray, at}
use motor_stand.Lu.Reduction.{decompose_from-IsLater}
use motor_stand.Lu.Substitution.{side, IsStarted}
use motor_stand.Lu.Backward.{backward-Row}
use motor_stand.Lu.Solution.{decompose_from-regular, decompose_from-Rounds, steps-below}

module _ {D : Type 0} ⦃d : Double D⦄ where
  pub decompose_copy-from :
      (n m : ℕ) (indx : List ℕ) (h : Memory D) (w : Work D)
      → decompose_copy m n indx h ≡ decomposed w
      → (vv : List D) × (decompose_from m n n 0
            (record { memory = h; vv = vv; indx = indx; d = d.unit })
          ≡ some w)
  unfolding decompose_copy
  decompose_copy-from n m indx h w e =
      elim (Option-cases (scales h m n n 0 (replicate n d.nought))) [
        | inl failed ↦ let e' = rw (failed, decompose_copy) at e in ground arith
        | inr (vv, found) ↦
            let first : Work D = record { memory = h; vv = vv; indx = indx; d = d.unit } in
            elim (Option-cases (decompose_from m n n 0 first)) [
              | inl failed ↦ let e' = rw (found, failed, decompose_copy) at e in ground arith
              | inr (last, ended) ↦
                  let e' = rw (found, ended, decompose_copy) at e in
                  let same : last ≡ w = ground arith in (vv, rw same at ended)
            ]
      ]

  -- A square matrix as an array of `n` rows.
  pub square_array :
      (h : Memory D) (p n : ℕ)
      → IsMat D h p
      → (h.cell p).rows ≡ n
      → (h.cell p).cols ≡ n
      → IsSquareArray D n p h × ((i j : ℕ) → i < n → j < n → at n p h i j ≡ entry h p i j)
  square_array h p n v er ec =
      let small : n * n ≤ 2 ^ 32 = rw (er, ec) at v.small in
      (
        record { rows = er; size = rw (er, ec) at v.size; small = small },
        λ i j hi hj.
            ap (load h p) (index-row_major n n i j hi hj small ∙ ap (λ c. i * c + j) (sym ec)),
      )

  -- The matrix that a copy leaves.
  copied_array :
      (a m n : ℕ) (h h' : Memory D)
      → IsMat D h m
      → (h.cell a).rows ≡ n
      → (h.cell a).cols ≡ n
      → matdup a m h ≡ some h'
      → IsSquareArray D n m h' × ((i j : ℕ) → i < n → j < n → at n m h' i j ≡ entry h a i j)
  copied_array a m n h h' v er ec e =
      let shape : SameShape D h a m = matdup-SameShape a m h h' e in
      let given = rw e at (matdup-Gives h a m v shape) in
      let rows = given.0.rows ∙ sym shape.rows ∙ er in
      let cols = given.0.cols ∙ sym shape.cols ∙ ec in
      let (square, entries) = square_array h' m n (IsMat-Same m given.0 v) rows cols in
      (
        square,
        λ i j hi hj.
            entries i j hi hj
            ∙ given.1 i j (rw (← given.0.rows, rows) hi) (rw (← given.0.cols, cols) hj),
      )

  solve_mat-rows :
      (h : Memory D) (m n : ℕ) (indx : List ℕ) (b : List D)
      → (h.cell m).rows ≡ n
      → solve_mat h m indx b
        ≡ backward h m n n (for_range n 0 (forward_step h m n indx) (record { x = b; ii = 0 })).x
  unfolding solve_mat
  solve_mat-rows h m n indx b e = rw e refl

  module _ (x : IsExact D) (z : HasExactZero D) where
    -- The equations of the matrix that is overwritten.
    decompose_copy-solves :
        (n m : ℕ) (indx : List ℕ) (h : Memory D) (w : Work D) (b : List D)
        → IsSquareArray D n m h
        → n ≤ length indx
        → decompose_copy m n indx h ≡ decomposed w
        → length b ≡ n
        → (i : ℕ) → i < n
        → sum n 0 (λ j. at n m h i j ⊗ side (solve_mat w.memory m w.indx b) j) ≡ side b i
    decompose_copy-solves n m indx h w b s room e size i hi =
        let (vv, from) = decompose_copy-from n m indx h w e in
        let first : Work D = record { memory = h; vv = vv; indx = indx; d = d.unit } in
        let start : Forward D = record { x = b; ii = 0 } in
        let started : IsStarted n 0 start = record {
          size = size;
          zeros = λ none j lt. absurd (omega arith);
          start = λ ne. absurd (ne refl);
        } in
        let pivots = decompose_copy-Pivoted m n indx h w room e in
        let later = decompose_from-IsLater n m n 0 first w (omega arith) s from in
        let rounds =
          decompose_from-Rounds x z n m w pivots n 0 first start (omega arith) s room from
            started in
        let y = (for_range n 0 (forward_step w.memory m n w.indx) start).x in
        let solution = backward w.memory m n n y in
        let regular = λ (j : ℕ) (hj : j < n).
          decompose_from-regular x z n m n 0 first w (omega arith) s from j (omega arith) hj in
        let solves = λ (j : ℕ) (hj : j < n).
          backward-Row x w.memory n m regular n y (omega arith)
            (steps-below x z n m w pivots n 0 start (omega arith) started).0 j hj in
        let count : n ≡ n - 0 = omega arith in
        let terms = λ (v : List D) (j : ℕ). at n m h i j ⊗ side v j in
        ap (λ v. sum n 0 (terms v)) (solve_mat-rows w.memory m n w.indx b later.square.rows)
        ∙ ap (λ c. sum c 0 (terms solution)) count
        ∙ sym (x.zero_add _)
        ∙ Rounds-Holds x n (at n m w.memory) (side y) (side solution) solves n 0 (at n m h) (side b)
            (omega arith) rounds i (omega arith) hi

    -- The equations of a matrix with the same entries.
    solves_entries :
        (n a m : ℕ) (indx : List ℕ) (h : Memory D) (w : Work D) (b : List D) (h' : Memory D)
        → IsSquareArray D n m h'
        → ((i j : ℕ) → i < n → j < n → at n m h' i j ≡ entry h a i j)
        → n ≤ length indx
        → decompose_copy m n indx h' ≡ decomposed w
        → length b ≡ n
        → (i : ℕ) → i < n
        → sum n 0 (λ j. entry h a i j ⊗ side (solve_mat w.memory m w.indx b) j) ≡ side b i
    solves_entries n a m indx h w b h' s same room e size i hi =
        sum_congr n 0 _ _ (λ j le lt.
          ap (λ t. t ⊗ side (solve_mat w.memory m w.indx b) j) (sym (same i j hi (omega arith))))
        ∙ decompose_copy-solves n m indx h' w b s room e size i hi

    -- In exact arithmetic, where only zero compares equal to 0.0: if the decomposition of a matrix succeeds,
    -- in place or not, where the matrices have room for their entries, at most 2^32, and the array of the
    -- pivots for the rows, then _solve_mat behind it, with a right side for each row, gives a solution: the
    -- sums of each row of the old matrix with it are the right sides.
    pub lu_decomp_mat-solves :
        (a m : ℕ) (indx : List ℕ) (h : Memory D) (w : Work D) (b : List D)
        → IsMat D h a
        → IsMat D h m
        → (h.cell a).rows ≤ length indx
        → lu_decomp_mat a m indx h ≡ decomposed w
        → length b ≡ (h.cell a).rows
        → (i : ℕ) → i < (h.cell a).rows
        → sum (h.cell a).rows 0 (λ j. entry h a i j ⊗ side (solve_mat w.memory m w.indx b) j)
          ≡ side b i
    unfolding lu_decomp_mat
    lu_decomp_mat-solves a m indx h w b va vm room e size i hi =
        let n = (h.cell a).rows in
        elim (Bool-cases (n == (h.cell a).cols)) [
          | inr oblong ↦ let e' = rw (oblong, lu_decomp_mat) at e in ground arith
          | inl square ↦
              let cols : n ≡ (h.cell a).cols = (==_iff n (h.cell a).cols).0 square in
              elim (Bool-cases (a == m)) [
                | inl in_place ↦
                    let same : a ≡ m = (==_iff a m).0 in_place in
                    let (array, entries) =
                      square_array h m n vm (ap (λ t. (h.cell t).rows) (sym same))
                        (ap (λ t. (h.cell t).cols) (sym same) ∙ sym cols) in
                    solves_entries n a m indx h w b h array
                      (λ r j hr hj. entries r j hr hj ∙ ap (λ t. entry h t r j) (sym same)) room
                      (rw (square, in_place, lu_decomp_mat) at e) size i hi
                | inr apart ↦ elim (Option-cases (matdup a m h)) [
                  | inl failed ↦
                      let e' = rw (square, apart, failed, lu_decomp_mat) at e in ground arith
                  | inr (h', copied) ↦
                      let (array, entries) = copied_array a m n h h' vm refl (sym cols) copied in
                      solves_entries n a m indx h w b h' array entries room
                        (rw (square, apart, copied, lu_decomp_mat) at e) size i hi
                ]
              ]
        ]
