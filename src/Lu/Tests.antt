-- ===== src/Lu/Tests.antt =====
-- A matrix modulo two whose rows are exchanged, decomposed in place.
use motor_stand.Prelude.{◌≡◌, refl, Bool, true, false, [], ◌∷◌, arith}
use motor_stand.Prelude.Loops.{for_range}
use motor_stand.Parity.{parity, parity-IsExact, parity-HasExactZero}
use motor_stand.Double.{◌⊗◌}
use motor_stand.Double.Sums.{sum}
use motor_stand.Matrix.Entries.{IsMat, entry}
use motor_stand.Lu.Substitution.{side}
use motor_stand.Lu.Equations.{lu_decomp_mat-solves}
use motor_stand.Matrix.{Mat, Memory}
use motor_stand.Lu.{
  Work, Outcome, aborted, singular, decomposed, lu_decomp_mat, decompose_copy, scales, largest,
  decompose_from, decompose_column, pivoted, find_pivot, swap_rows, eliminate, solve_mat,
  forward_step, backward, backward_step,
}
use motor_stand.Lu.Pivots.{Pivoted, lu_decomp_mat-Pivoted}

abbrev square : Mat Bool
square = record { rows = 2; cols = 2; vals = false ∷ true ∷ true ∷ true ∷ [] }

abbrev memory : Memory Bool
memory = record { next = 1; cell = λ q. square }

abbrev work_of : Outcome Bool → Work Bool
work_of (decomposed w) = w
work_of aborted = record { memory = memory; vv = []; indx = []; d = false }
work_of singular = record { memory = memory; vv = []; indx = []; d = false }

lu_decomp_mat-Pivoted_example : Pivoted 2 2 (1 ∷ 1 ∷ [])
unfolding lu_decomp_mat decompose_copy scales largest decompose_from decompose_column pivoted
    find_pivot swap_rows eliminate for_range
lu_decomp_mat-Pivoted_example =
    lu_decomp_mat-Pivoted 0 0 (0 ∷ 0 ∷ []) memory (work_of (lu_decomp_mat 0 0 (0 ∷ 0 ∷ []) memory))
      (omega arith) refl

-- The first equation is y = 1, the second x + y = 0.
solution :
    solve_mat
      (work_of (lu_decomp_mat 0 0 (0 ∷ 0 ∷ []) memory)).memory
      0
      (1 ∷ 1 ∷ [])
      (true ∷ false ∷ [])
    ≡ true ∷ true ∷ []
unfolding lu_decomp_mat decompose_copy scales largest decompose_from decompose_column pivoted
    find_pivot swap_rows eliminate for_range solve_mat forward_step backward backward_step
solution = refl

square-IsMat : IsMat Bool memory 0
square-IsMat = record { size = refl; small = omega arith }

lu_decomp_mat-solves_example :
    sum 2 0 (λ j.
      entry memory 0 1 j
      ⊗ side
          (solve_mat
            (work_of (lu_decomp_mat 0 0 (0 ∷ 0 ∷ []) memory)).memory
            0
            (work_of (lu_decomp_mat 0 0 (0 ∷ 0 ∷ []) memory)).indx
            (true ∷ false ∷ []))
          j)
    ≡ false
unfolding lu_decomp_mat decompose_copy scales largest decompose_from decompose_column pivoted
    find_pivot swap_rows eliminate for_range
lu_decomp_mat-solves_example =
    lu_decomp_mat-solves parity-IsExact parity-HasExactZero 0 0 (0 ∷ 0 ∷ []) memory
      (work_of (lu_decomp_mat 0 0 (0 ∷ 0 ∷ []) memory)) (true ∷ false ∷ []) square-IsMat
      square-IsMat (omega arith) refl refl 1 (omega arith)
