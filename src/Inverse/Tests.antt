-- ===== src/Inverse/Tests.antt =====
-- The inverse of a matrix of four rows modulo two, whose first rows are exchanged.
use motor_stand.Prelude.{
  ℕ, refl, Bool, true, false, Option, none, some, [], ◌∷◌, List, length-replicate, replicate, arith,
}
use motor_stand.Prelude.Loops.{for_range}
use motor_stand.Parity.{parity, parity-IsExact, parity-HasExactZero}
use motor_stand.Matrix.{Mat, Memory, alloc_mat, for_cells, matdup}
use motor_stand.Matrix.Entries.{IsMat}
use motor_stand.Lu.{
  lu_decomp_mat, decompose_copy, scales, largest, decompose_from, decompose_column, pivoted,
  find_pivot, swap_rows, eliminate,
}
use motor_stand.Inverse.{dalloc_mat, inverse_lu, matinv_safe}
use motor_stand.Inverse.Identity.{IsInverse, matinv_safe-IsInverse}

abbrev given : Mat Bool
given = record {
  rows = 4;
  cols = 4;
  vals =
      false ∷ true ∷ false ∷ false ∷ true ∷ true ∷ false ∷ true ∷ false ∷ false ∷ true ∷ false
      ∷ false ∷ true ∷ true ∷ true ∷ [];
}

abbrev memory : Memory Bool
memory = record { next = 2; cell = λ q. given }

abbrev zeros : ℕ → List Bool
zeros size = replicate size false

abbrev memory_of : Option (Bool × Memory Bool) → Memory Bool
memory_of none = memory
memory_of (some (_, h)) = h

given-IsMat : (p : ℕ) → IsMat Bool memory p
given-IsMat p = record { size = refl; small = omega arith }

matinv_safe-IsInverse_example : IsInverse Bool 0 1 memory (memory_of (matinv_safe zeros 0 1 memory))
unfolding matinv_safe inverse_lu dalloc_mat alloc_mat for_cells matdup lu_decomp_mat decompose_copy
    scales largest decompose_from decompose_column pivoted find_pivot swap_rows eliminate for_range
matinv_safe-IsInverse_example =
    matinv_safe-IsInverse zeros 0 1 memory (memory_of (matinv_safe zeros 0 1 memory)) parity-IsExact
      parity-HasExactZero (omega arith) (omega arith) (given-IsMat 0) (given-IsMat 1)
      (λ size. length-replicate size false) (omega arith) refl
