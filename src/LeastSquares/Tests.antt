-- ===== src/LeastSquares/Tests.antt =====
-- A line through two points, modulo two.
use motor_stand.Prelude.{
  ℕ, zero, suc, ◌+◌, ◌≡◌, refl, Bool, true, false, Option, none, some, List, [], ◌∷◌,
  length-replicate, replicate, arith,
}
use motor_stand.Prelude.Calls.{Succeeds}
use motor_stand.Double.{◌⊕◌, ◌⊗◌}
use motor_stand.Parity.{parity, parity-IsExact}
use motor_stand.Quartet.{Quad, quad, quad-IsExact, quad-HasExactZero}
use motor_stand.Double.Sums.{sum}
use motor_stand.Matrix.{Mat, Memory, alloc_mat, for_cells, matdup, matidn, matzro, matmul, dot}
use motor_stand.Lu.{
  lu_decomp_mat, decompose_copy, scales, largest, decompose_from, decompose_column, pivoted,
  find_pivot, swap_rows, eliminate, solve_mat, forward_step, backward, backward_step,
}
use motor_stand.Inverse.{dalloc_mat, matinv, matinv_safe, inverse_lu, solve_column}
use motor_stand.LeastSquares.Generic.{least_squares_filter-normal_equations}
use motor_stand.LeastSquares.{
  at_, first_order, generic_round, prepare, solve, generic_order, least_squares_filter,
}
use motor_stand.LeastSquares.Normal.{sum_from, total}
use motor_stand.Prelude.Loops.{for_range}
use motor_stand.LeastSquares.FirstOrder.{first_order-normal_equations}

abbrev ones : ℕ → List Bool
ones size = replicate size true

abbrev unused : Mat Bool
unused = record { rows = 0; cols = 0; vals = [] }

abbrev memory : Memory Bool
memory = record { next = 5; cell = λ q. unused }

-- The points (1, 1) and (0, 0), of which the slope is 1.
abbrev points : List Bool
points = true ∷ false ∷ []

first_order-normal_equations_example :
    Succeeds
      (λ a. (false ⊗ a.0 ⊕ true ⊗ a.1 ≡ true) × (true ⊗ a.0 ⊕ true ⊗ a.1 ≡ true))
      (first_order ones points points 2 memory)
unfolding sum_from for_range
first_order-normal_equations_example =
    first_order-normal_equations ones memory points points 2 parity-IsExact refl refl refl

-- A cubic through one point for each element of the field of four.
abbrev zeros : ℕ → List Quad
zeros size = replicate size (false, false)

abbrev space : Memory Quad
space = record { next = 0; cell = λ q. record { rows = 0; cols = 0; vals = [] } }

abbrev power : Quad → ℕ → Quad
power x zero = (true, false)
power x (suc k) = x ⊗ power x k

abbrev places : List Quad
places = (false, false) ∷ (true, false) ∷ (false, true) ∷ (true, true) ∷ []

abbrev heights : List Quad
heights = (true, true) ∷ (false, true) ∷ (false, false) ∷ (false, true) ∷ []

abbrev coefficients : Option (List Quad) → List Quad
coefficients none = []
coefficients (some a) = a

least_squares_filter-normal_equations_example :
    let a = coefficients (least_squares_filter zeros power places heights 4 3 space) in
    sum 4 0 (λ k. total 4 (λ i. power (at_ places i) (2 + k)) ⊗ at_ a k)
    ≡ total 4 (λ i. at_ heights i ⊗ power (at_ places i) 2)
unfolding least_squares_filter generic_order prepare generic_round solve dalloc_mat alloc_mat matzro
    matmul dot for_cells matinv matinv_safe inverse_lu solve_column matidn matdup lu_decomp_mat
    decompose_copy scales largest decompose_from decompose_column pivoted find_pivot swap_rows
    eliminate solve_mat forward_step backward backward_step for_range
least_squares_filter-normal_equations_example =
    least_squares_filter-normal_equations zeros power places heights 4 3 space quad-IsExact
      quad-HasExactZero (λ size. length-replicate size (false, false)) (omega arith) (omega arith)
      (coefficients (least_squares_filter zeros power places heights 4 3 space)) refl 2
      (omega arith)
