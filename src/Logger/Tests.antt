-- ===== src/Logger/Tests.antt =====
-- The logger at concrete inputs.
use motor_stand.Prelude.{ℕ, ◌≡◌, refl, some, true, List, [], ◌∷◌, ◌++◌, Bool}
use motor_stand.Prelude.Int.{ℤ, pos}
use motor_stand.Prelude.Text.{codes, print_long}
use motor_stand.Integers.{whole_numbers}
use motor_stand.LoadCell.{OutputBatch}
use motor_stand.Server.Stream.{payload}
use motor_stand.Double.{Strtod}
use motor_stand.Logger.{
  LoggerData, line, scaled, write_callback_batch, write_entries, set_up, read_constants,
}
use motor_stand.Logger.Lines.{lines, write_callback_batch-lines}
use motor_stand.Logger.Arguments.{set_up-multiplier}

abbrev constants : LoggerData ℤ
constants = record { m = pos 32767; b = pos 2 }

abbrev batch : OutputBatch
batch = record {
  count = 1;
  entries =
      record { collect_time = 17; raw_value = pos 32767 }
      ∷ record { collect_time = 0; raw_value = pos 0 }
      ∷ [];
}

write_callback_batch-lines_example :
    write_callback_batch constants batch (codes "#")
    ≡ some (codes "#" ++ lines constants (payload batch))
write_callback_batch-lines_example = write_callback_batch-lines constants batch (codes "#")

abbrev expected : List ℕ
expected = codes "#17" ++ 9 ∷ codes "32767" ++ 9 ∷ codes "32769" ++ 9 ∷ codes "0" ++ 10 ∷ []

logs : write_callback_batch constants batch (codes "#") ≡ some expected
unfolding write_callback_batch write_entries line scaled print_long
logs = refl

-- A `strtod` that reads no number anywhere.
abbrev no_number : Strtod ℤ
no_number text = (pos 0, text)

abbrev any_file : List ℕ → Bool
any_file name = true

set_up-multiplier_example : ◌≡◌ {A = ℤ} (pos 0) (pos 0)
unfolding set_up read_constants
set_up-multiplier_example =
    set_up-multiplier no_number any_file (λ rest. refl)
      (codes "logger" ∷ codes "out.txt" ∷ codes "-k" ∷ codes ",1.0" ∷ []) (codes "out.txt")
      (record { m = pos 0; b = pos 0 }) refl
