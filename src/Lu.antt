-- ===== src/Lu.antt =====
-- `_lu_decomp_mat` and `_solve_mat` of src/numerical_basics.c: the LU decomposition with implicit
-- pivoting, and the solution of a system by it.
pub mod Pivots
pub mod Rounds
pub mod Columns
pub mod Elimination
pub mod Reduction
pub mod Substitution
pub mod Backward
pub mod Solution
pub mod Equations
pub mod Others
mod Tests
use motor_stand.Prelude.{
  ℕ, zero, suc, ◌+◌, ◌-◌, not, Option, none, some, List, if◌then◌else◌, ◌==◌, get_or, set,
  replicate,
}
use motor_stand.Prelude.Loops.{for_range}
use motor_stand.Double.{Double, ◌⊖◌, ◌⊗◌, ◌⊘◌}
use motor_stand.Matrix.{Memory, index, load, store, matdup}

-- `matdecomp`
pub record Decomposition (D : Type 0) : Type 0 where
  pub m : ℕ
  pub indx : List ℕ
  pub d : D

-- The state of the decomposition: the memory, whose matrix `m` is overwritten, the scales `vv`, the
-- pivots so far and the sign `d`.
pub record Work (D : Type 0) : Type 0 where
  pub memory : Memory D
  pub vv : List D
  pub indx : List ℕ
  pub d : D

-- The pivot search: the largest scaled entry and its row.
pub record Pivot (D : Type 0) : Type 0 where
  pub big : D
  pub imax : ℕ

-- How the decomposition ends: an assertion fails, 0 is returned, or 1.
pub data Outcome (D : Type 0) : Type 0 where
  aborted singular : Outcome D
  decomposed : Work D → Outcome D

-- The array `x` and the index `ii` of the forward substitution.
pub record Forward (D : Type 0) : Type 0 where
  pub x : List D
  pub ii : ℕ

module _ {D : Type 0} ⦃d : Double D⦄ where
  -- The largest magnitude in row `i`.
  unfoldable pub largest : Memory D → ℕ → ℕ → ℕ → D
  largest h m rows i =
      let step = λ (j : ℕ) (big : D).
        let temp = d.fabs (load h m (index rows i j)) in if d.gt temp big then temp else big in
      for_range rows 0 step d.nought

  -- The scales of the rows from `i` on; `none` if a row is zero.
  unfoldable pub scales : Memory D → ℕ → ℕ → ℕ → ℕ → List D → Option (List D)
  scales h m rows zero i vv = some vv
  scales h m rows (suc n) i vv =
      let big = largest h m rows i in
      let rest = scales h m rows n (i + 1) (set vv i (d.unit ⊘ big)) in
      if d.eq big d.nought then none else rest

  unfoldable pub find_pivot : Work D → ℕ → ℕ → ℕ → Pivot D
  find_pivot w m rows k =
      let step = λ (i : ℕ) (p : Pivot D).
        let temp = get_or w.vv i d.nought ⊗ d.fabs (load w.memory m (index rows i k)) in
        if d.gt temp p.big then record { big = temp; imax = i } else p in
      for_range (rows - k) k step (record { big = d.nought; imax = k })

  unfoldable pub swap_rows : ℕ → ℕ → ℕ → ℕ → Memory D → Memory D
  swap_rows m rows imax k h =
      let step = λ (j : ℕ) (h : Memory D).
        let temp = load h m (index rows imax j) in
        let h = store m (index rows imax j) (load h m (index rows k j)) h in
        store m (index rows k j) temp h in
      for_range rows 0 step h

  -- The rows below `k`, reduced by row `k`.
  unfoldable pub eliminate : ℕ → ℕ → ℕ → Memory D → Memory D
  eliminate m rows k h =
      let reduce = λ (i : ℕ) (h : Memory D).
        let temp = load h m (index rows i k) ⊘ load h m (index rows k k) in
        let h = store m (index rows i k) temp h in
        for_range (rows - (k + 1)) (k + 1)
          (λ j h.
            store m (index rows i j) (load h m (index rows i j) ⊖ temp ⊗ load h m (index rows k j))
              h)
          h in
      for_range (rows - (k + 1)) (k + 1) reduce h

  -- The rows `k` and `imax` exchanged, unless they are the same, and the pivot noted.
  unfoldable pub pivoted : ℕ → ℕ → ℕ → ℕ → Work D → Work D
  pivoted m rows k imax w =
      let swapped : Work D = if k == imax then w else record w {
        memory = swap_rows m rows imax k w.memory;
        d = d.neg w.d;
        vv = set w.vv imax (get_or w.vv k d.nought);
      } in
      record swapped { indx = set w.indx k imax }

  -- One round of the loop over `k`; `none` if the pivot is zero.
  unfoldable pub decompose_column : ℕ → ℕ → ℕ → Work D → Option (Work D)
  decompose_column m rows k w =
      let noted = pivoted m rows k (find_pivot w m rows k).imax w in
      if d.eq (load noted.memory m (index rows k k)) d.nought
      then none
      else some (record noted { memory = eliminate m rows k noted.memory })

  unfoldable pub decompose_from : ℕ → ℕ → ℕ → ℕ → Work D → Option (Work D)
  decompose_from m rows zero k w = some w
  decompose_from m rows (suc n) k w = elim (decompose_column m rows k w) [
    | none ↦ none
    | some w' ↦ decompose_from m rows n (k + 1) w'
  ]

  unfoldable pub decompose_copy : ℕ → ℕ → List ℕ → Memory D → Outcome D
  decompose_copy m rows indx h = elim (scales h m rows rows 0 (replicate rows d.nought)) [
    | none ↦ singular
    | some vv ↦
        elim (decompose_from m rows rows 0
          (record { memory = h; vv = vv; indx = indx; d = d.unit })) [
            | none ↦ singular
            | some w ↦ decomposed w
          ]
  ]

  -- `_lu_decomp_mat`, with the array `indx` of as many elements as `a` has rows.
  unfoldable pub lu_decomp_mat : ℕ → ℕ → List ℕ → Memory D → Outcome D
  lu_decomp_mat a m indx h =
      let rows = (h.cell a).rows in
      if not (rows == (h.cell a).cols)
      then aborted
      else if a == m
      then decompose_copy m rows indx h
      else elim (matdup a m h) [ none ↦ aborted | some h' ↦ decompose_copy m rows indx h' ]

  unfoldable pub forward_step : Memory D → ℕ → ℕ → List ℕ → ℕ → Forward D → Forward D
  forward_step h m rows indx i f =
      let ip = get_or indx i 0 in
      let sum = get_or f.x ip d.nought in
      let x = set f.x ip (get_or f.x i d.nought) in
      let less = λ (j : ℕ) (sum : D). sum ⊖ load h m (index rows i j) ⊗ get_or x j d.nought in
      if not (f.ii == 0)
      then record { x = set x i (for_range (i - (f.ii - 1)) (f.ii - 1) less sum); ii = f.ii }
      else record { x = set x i sum; ii = if d.eq sum d.nought then 0 else i + 1 }

  unfoldable pub backward_step : Memory D → ℕ → ℕ → ℕ → List D → List D
  backward_step h m rows i x =
      let less = λ (j : ℕ) (sum : D). sum ⊖ load h m (index rows i j) ⊗ get_or x j d.nought in
      let sum = for_range (rows - (i + 1)) (i + 1) less (get_or x i d.nought) in
      set x i (sum ⊘ load h m (index rows i i))

  unfoldable pub backward : Memory D → ℕ → ℕ → ℕ → List D → List D
  backward h m rows zero x = x
  backward h m rows (suc i) x = backward h m rows i (backward_step h m rows i x)

  -- `_solve_mat`: what `x` holds in the end, also if `x` is the array `b`.
  unfoldable pub solve_mat : Memory D → ℕ → List ℕ → List D → List D
  solve_mat h m indx b =
      let rows = (h.cell m).rows in
      let forward = for_range rows 0 (forward_step h m rows indx) (record { x = b; ii = 0 }) in
      backward h m rows rows forward.x
