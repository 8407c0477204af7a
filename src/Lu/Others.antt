-- ===== src/Lu/Others.antt =====
-- What `_lu_decomp_mat` of src/numerical_basics.c leaves alone, and what `_solve_mat` reads.
use motor_stand.Prelude.{
  ℕ, zero, suc, ◌+◌, ◌-◌, ◌≡◌, ◌≢◌, refl, ap, ◌∙◌, inl, inr, some, List, Bool-cases, Option-cases,
  ◌==◌, ==_of_ne, arith,
}
use motor_stand.Prelude.Loops.{for_range, for_range_inv, for_range_congr}
use motor_stand.Double.{Double, ◌⊖◌, ◌⊗◌, ◌⊘◌}
use motor_stand.Matrix.{Memory, index, load, store, matdup}
use motor_stand.Matrix.Store.{Same, Same-store}
use motor_stand.Matrix.Entries.{IsMat}
use motor_stand.Matrix.Elementwise.{matdup-Gives, matdup-SameShape}
use motor_stand.Lu.{
  Work, Forward, swap_rows, eliminate, pivoted, find_pivot, decompose_column, decompose_from,
  decompose_copy, decomposed, lu_decomp_mat, forward_step, backward_step, backward, solve_mat,
}
use motor_stand.Lu.Reduction.{decompose_from-next}
use motor_stand.Lu.Equations.{decompose_copy-from}

module _ {D : Type 0} ⦃d : Double D⦄ (m : ℕ) (before : Memory D) where
  swap_rows-Same :
      (n p k : ℕ) (h : Memory D) → Same D m before h → Same D m before (swap_rows m n p k h)
  unfolding swap_rows
  swap_rows-Same n p k h s =
      for_range_inv (λ _ g. Same D m before g) _ n
        (λ j g lt v.
          Same-store {h' = store m (index n p j) (load g m (index n k j)) g} (index n k j)
            (load g m (index n p j)) (Same-store {h' = g} (index n p j) (load g m (index n k j)) v))
        n 0 h (omega arith) s

  reduce_row-Same :
      (n k i : ℕ) (temp : D) (h : Memory D)
      → Same D m before h
      → Same D m before (
          for_range
            (n - (k + 1))
            (k + 1)
            (λ j h.
              store m (index n i j) (load h m (index n i j) ⊖ temp ⊗ load h m (index n k j)) h)
            h)
  reduce_row-Same n k i temp h s =
      for_range_inv (λ _ g. Same D m before g) _ (k + 1 + (n - (k + 1)))
        (λ j g lt v.
          Same-store {h' = g} (index n i j) (load g m (index n i j) ⊖ temp ⊗ load g m (index n k j))
            v)
        (n - (k + 1)) (k + 1) h refl s

  eliminate-Same :
      (n k : ℕ) (h : Memory D) → Same D m before h → Same D m before (eliminate m n k h)
  unfolding eliminate
  eliminate-Same n k h s =
      for_range_inv (λ _ g. Same D m before g) _ (k + 1 + (n - (k + 1)))
        (λ i g lt v.
          let temp = load g m (index n i k) ⊘ load g m (index n k k) in
          reduce_row-Same n k i temp (store m (index n i k) temp g)
            (Same-store {h' = g} (index n i k) temp v))
        (n - (k + 1)) (k + 1) h refl s

  pivoted-Same :
      (n k p : ℕ) (w : Work D)
      → Same D m before w.memory
      → Same D m before (pivoted m n k p w).memory
  unfolding pivoted
  pivoted-Same n k p w s = elim (Bool-cases (k == p)) [
    | inl same ↦ rw same s
    | inr other ↦ rw other (swap_rows-Same n p k w.memory s)
  ]

  decompose_column-Same :
      (n k : ℕ) (w after : Work D)
      → decompose_column m n k w ≡ some after
      → Same D m before w.memory
      → Same D m before after.memory
  unfolding decompose_column
  decompose_column-Same n k w after e s =
      let noted = pivoted m n k (find_pivot w m n k).imax w in
      elim (Bool-cases (d.eq (load noted.memory m (index n k k)) d.nought)) [
        | inl zero_pivot ↦ let e' = rw zero_pivot at e in ground arith
        | inr fine ↦
            let e' = rw fine at e in
            let same : after.memory ≡ eliminate m n k noted.memory = ground arith in
            rw same (eliminate-Same n k noted.memory (pivoted-Same n k _ w s))
      ]

  decompose_from-Same :
      (n left k : ℕ) (w last : Work D)
      → decompose_from m n left k w ≡ some last
      → Same D m before w.memory
      → Same D m before last.memory
  unfolding decompose_from
  decompose_from-Same n zero k w last e s = let same : w ≡ last = ground arith in rw (← same) s
  decompose_from-Same n (suc left) k w last e s =
      let (next, found, rest) = decompose_from-next n m left k w last e in
      decompose_from-Same n left (k + 1) next last rest (decompose_column-Same n k w next found s)

  decompose_copy-Same :
      (n : ℕ) (indx : List ℕ) (h : Memory D) (w : Work D)
      → decompose_copy m n indx h ≡ decomposed w
      → Same D m before h
      → Same D m before w.memory
  decompose_copy-Same n indx h w e s =
      let (vv, from) = decompose_copy-from n m indx h w e in
      decompose_from-Same n n 0 (record { memory = h; vv = vv; indx = indx; d = d.unit }) w from s

module _ {D : Type 0} ⦃d : Double D⦄ where
  -- A decomposition beside the matrix changes the entries of its copy only.
  pub lu_decomp_mat-Same :
      (a m : ℕ) (indx : List ℕ) (h : Memory D) (w : Work D)
      → IsMat D h m
      → a ≢ m
      → lu_decomp_mat a m indx h ≡ decomposed w
      → Same D m h w.memory
  unfolding lu_decomp_mat
  lu_decomp_mat-Same a m indx h w v ne e =
      let n = (h.cell a).rows in
      let apart = ==_of_ne a m ne in
      elim (Bool-cases (n == (h.cell a).cols)) [
        | inr oblong ↦ let e' = rw (oblong, lu_decomp_mat) at e in ground arith
        | inl square ↦ elim (Option-cases (matdup a m h)) [
          | inl failed ↦ let e' = rw (square, apart, failed, lu_decomp_mat) at e in ground arith
          | inr (h', copied) ↦
              let given = rw copied at (matdup-Gives h a m v (matdup-SameShape a m h h' copied)) in
              decompose_copy-Same m h n indx h' w (rw (square, apart, copied, lu_decomp_mat) at e)
                given.0
        ]
      ]

module _ {D : Type 0} ⦃d : Double D⦄ where
  backward_congr :
      (h h' : Memory D) (m n i : ℕ) (x : List D)
      → h.cell m ≡ h'.cell m
      → backward h m n i x ≡ backward h' m n i x
  unfolding backward backward_step
  backward_congr h h' m n zero x e = refl
  backward_congr h h' m n (suc i) x e =
      rw e (backward_congr h h' m n i (backward_step h' m n i x) e)

  forward_step_congr :
      (h h' : Memory D) (m n : ℕ) (indx : List ℕ) (i : ℕ) (f : Forward D)
      → h.cell m ≡ h'.cell m
      → forward_step h m n indx i f ≡ forward_step h' m n indx i f
  unfolding forward_step
  forward_step_congr h h' m n indx i f e = rw e refl

  -- The result of _solve_mat depends on the decomposed matrix only.
  pub solve_mat_congr :
      (h h' : Memory D) (m : ℕ) (indx : List ℕ) (b : List D)
      → h.cell m ≡ h'.cell m
      → solve_mat h m indx b ≡ solve_mat h' m indx b
  unfolding solve_mat
  solve_mat_congr h h' m indx b e =
      let n = (h'.cell m).rows in
      let start : Forward D = record { x = b; ii = 0 } in
      let run = λ (c : ℕ) (g : Memory D). (for_range c 0 (forward_step g m c indx) start).x in
      let forward =
        for_range_congr (forward_step h m n indx) (forward_step h' m n indx) n
          (λ i f lt. forward_step_congr h h' m n indx i f e) n 0 start (omega arith) in
      ap (λ c. backward h m c c (run c h)) (ap (λ t. t.rows) e)
      ∙ ap (λ f. backward h m n n f.x) forward
      ∙ backward_congr h h' m n n (run n h') e
