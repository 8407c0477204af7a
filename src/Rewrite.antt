-- ===== src/Rewrite.antt =====
-- src/output_rewrite.c: a log whose times start at zero. The log is the list of the lines that `fgets`
-- gives, shorter than its buffer; what is written is the list of the lines that are appended.
pub mod Again
mod Tests
use motor_stand.Prelude.{
  ℕ, Bool, ◌&&◌, Option, none, some, List, [], ◌∷◌, ◌++◌, map, leb, if◌then◌else◌,
}
use motor_stand.Prelude.Int.{ℤ}
use motor_stand.Prelude.Text.{codes, first, print_long, is_digit}
use motor_stand.Double.{Double, Strtod}
use motor_stand.Integers.{plus, minus}

-- The fields of `output_data` that the program uses.
pub record Row (D : Type 0) : Type 0 where
  pub collect_time : ℤ
  pub raw_value : ℤ
  pub value : D
  pub value_tare : D

-- `strtol` with the base 0.
abbrev pub Strtol : Type 0
Strtol = List ℕ → ℤ × List ℕ

abbrev pub header_line : List ℕ
header_line = codes "collect_time raw_value value tare_value" ++ 10 ∷ []

module _ {D : Type 0} ⦃d : Double D⦄ where
  pub row_line : ℤ → Row D → List ℕ
  row_line offset r =
      print_long (plus r.collect_time (minus offset))
      ++ 9
        ∷ (print_long r.raw_value
            ++ 9 ∷ (d.show_lf r.value ++ 9 ∷ (d.show_lf r.value_tare ++ 10 ∷ [])))

  module _ (strtol : Strtol) (strtod : Strtod D) where
    pub parse_line : List ℕ → Row D
    parse_line text =
        let (collect_time, text) = strtol text in
        let (raw, text) = strtol text in
        let (value, text) = strtod text in
        let (value_tare, text) = strtod text in
        record {
          collect_time = collect_time;
          raw_value = raw;
          value = value;
          value_tare = value_tare;
        }

    -- The first loop; a line whose first character is no digit is skipped.
    pub read_rows : List (List ℕ) → List (Row D)
    read_rows [] = []
    read_rows (line ∷ lines) =
        let rows = read_rows lines in if is_digit (first line) then parse_line line ∷ rows else rows

    -- The lines that are written; `none` if there are no rows, as the program ends before it opens the
    -- file.
    pub write_rows : List (Row D) → Option (List (List ℕ))
    write_rows [] = none
    write_rows (r ∷ rows) = some (header_line ∷ map (row_line r.collect_time) (r ∷ rows))

    pub rewrite : List (List ℕ) → Option (List (List ℕ))
    rewrite lines = write_rows (read_rows lines)
