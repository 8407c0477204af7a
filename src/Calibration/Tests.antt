-- ===== src/Calibration/Tests.antt =====
-- Dialogues, and a fit modulo two.
use motor_stand.Prelude.{ℕ, refl, ◌≡◌, some, Bool, true, false, List, [], ◌∷◌, replicate, arith}
use motor_stand.Prelude.Int.{ℤ, pos}
use motor_stand.Prelude.Calls.{Succeeds}
use motor_stand.Prelude.Loops.{for_range}
use motor_stand.Prelude.Text.{codes}
use motor_stand.Double.{Strtod}
use motor_stand.Integers.{whole_numbers}
use motor_stand.Parity.{parity, parity-IsExact}
use motor_stand.Matrix.{Mat, Memory}
use motor_stand.LeastSquares.Normal.{sum_from}
use motor_stand.Calibration.{
  Buffers, Answer, faulted, more, finished, opening, constants, calibrate, dialogue,
}
use motor_stand.Calibration.Dialogue.{Refines, dialogue-Refines}
use motor_stand.Calibration.Multipliers.{Fits, calibrate-Fits}

-- Reads the number five everywhere.
abbrev five : Strtod ℤ
five text = (pos 5, [])

abbrev fresh : Buffers ℤ
fresh = opening (replicate 4 (pos 0)) (replicate 4 (pos 0))

abbrev lines : List (List ℕ × ℤ)
lines =
    (codes "5", pos 32767)
    ∷ (codes "", pos 0)
    ∷ (codes "5", pos 0)
    ∷ (codes "b", pos 0)
    ∷ (codes "q", pos 0)
    ∷ []

dialogue-Refines_example :
    Refines
      (dialogue five lines fresh)
      (finished (record { known = pos 5 ∷ []; measured = pos 1 ∷ [] }))
unfolding opening motor_stand.Calibration.normalised
dialogue-Refines_example =
    dialogue-Refines five lines fresh
      (record { known = refl; measured = refl; len = refl; room = omega arith })

abbrev ones : ℕ → List Bool
ones size = replicate size true

abbrev unused : Mat Bool
unused = record { rows = 0; cols = 0; vals = [] }

abbrev memory : Memory Bool
memory = record { next = 5; cell = λ q. unused }

abbrev two_values : Buffers Bool
two_values = record {
  known_values = true ∷ false ∷ [];
  measurement = true ∷ false ∷ [];
  buf_len = 2;
  buf_pos = 2;
}

calibrate-Fits_example :
    Succeeds
      (λ c.
        Fits ones memory parity-IsExact (true ∷ false ∷ []) (true ∷ false ∷ []) 2 c.0 c.1
        × (constants ones two_values memory ≡ some (c.1, c.0)))
      (calibrate ones (true ∷ false ∷ []) (pos 7 ∷ pos 4 ∷ []) memory)
unfolding sum_from for_range
calibrate-Fits_example =
    calibrate-Fits ones memory parity-IsExact (true ∷ false ∷ []) (pos 7 ∷ pos 4 ∷ []) two_values
      refl refl refl refl refl refl (λ e. ground arith)
