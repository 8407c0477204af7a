-- ===== src/Matrix/Tests.antt =====
-- Matrices of whole numbers.
use motor_stand.Prelude.{ℕ, refl, [], ◌∷◌, arith, if◌then◌else◌, ◌==◌}
use motor_stand.Prelude.Int.{ℤ, pos, negsuc}
use motor_stand.Integers.{whole_numbers}
use motor_stand.Matrix.{Mat, Memory, matmul}
use motor_stand.Matrix.Entries.{SameShape, entry, Gives}
use motor_stand.Matrix.Product.{sum_of_products, matmul-Gives}

abbrev wide : Mat ℤ
wide = record { rows = 2; cols = 3; vals = pos 1 ∷ pos 2 ∷ pos 3 ∷ negsuc 3 ∷ pos 5 ∷ pos 6 ∷ [] }

abbrev tall : Mat ℤ
tall = record { rows = 3; cols = 2; vals = pos 9 ∷ pos 9 ∷ pos 9 ∷ pos 9 ∷ pos 9 ∷ pos 9 ∷ [] }

abbrev square : Mat ℤ
square = record { rows = 2; cols = 2; vals = pos 0 ∷ pos 7 ∷ pos 1 ∷ pos 2 ∷ [] }

abbrev cells : ℕ → Mat ℤ
cells p = if p == 0 then wide else if p == 1 then tall else square

abbrev memory : Memory ℤ
memory = record { next = 3; cell = cells }

same : (p : ℕ) → SameShape ℤ memory p p
same p = record { rows = refl; cols = refl }

matmul-Gives_example :
    Gives memory 2
      (λ i j. sum_of_products 3 (entry memory 0 i) (λ k. entry memory 1 k j))
      (matmul 0 1 2 memory)
matmul-Gives_example =
    matmul-Gives memory 0 1 2 (omega arith) (omega arith) (omega arith) (omega arith) (omega arith)
      refl refl refl
