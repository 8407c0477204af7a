-- ===== src/Rewrite/Tests.antt =====
-- A log of two rows, of one digit each.
use motor_stand.Prelude.{ℕ, ◌-◌, ◌≡◌, refl, ◌==◌, some, List, [], ◌∷◌, if◌then◌else◌}
use motor_stand.Prelude.Int.{ℤ, pos}
use motor_stand.Prelude.Text.{is_digit, print_long}
use motor_stand.Integers.{whole_numbers}
use motor_stand.Rewrite.{Row, header_line, row_line, parse_line, read_rows, write_rows, rewrite}
use motor_stand.Rewrite.Again.{Readable, rewrite-again}

-- Reads one digit behind at most one tab.
abbrev digit_of : List ℕ → ℤ × List ℕ
digit_of [] = (pos 0, [])
digit_of (c ∷ rest) = if is_digit c then (pos (c - b'0'), rest) else (pos 0, c ∷ rest)

abbrev one_digit : List ℕ → ℤ × List ℕ
one_digit [] = (pos 0, [])
one_digit (c ∷ rest) = if c == 9 then digit_of rest else digit_of (c ∷ rest)

abbrev row : ℕ → ℕ → Row ℤ
row t v = record { collect_time = pos t; raw_value = pos 4; value = pos v; value_tare = pos 0 }

abbrev log : List (List ℕ)
log = header_line ∷ row_line (pos 0) (row 3 7) ∷ row_line (pos 0) (row 8 6) ∷ []

abbrev first_row : Row ℤ
first_row = row 3 7

first-Readable : Readable one_digit one_digit (pos 3) (row 3 7)
unfolding print_long
first-Readable = record {
  time = λ rest. (refl, refl);
  raw = λ rest. (refl, refl);
  value = record { read = pos 7; text = refl; tab = λ rest. refl; end = λ rest. refl };
  value_tare = record { read = pos 0; text = refl; tab = λ rest. refl; end = λ rest. refl };
}

second-Readable : Readable one_digit one_digit (pos 3) (row 8 6)
unfolding print_long
second-Readable = record {
  time = λ rest. (refl, refl);
  raw = λ rest. (refl, refl);
  value = record { read = pos 6; text = refl; tab = λ rest. refl; end = λ rest. refl };
  value_tare = record { read = pos 0; text = refl; tab = λ rest. refl; end = λ rest. refl };
}

rewrite-again_example :
    (again : List (List ℕ)) × (rewrite one_digit one_digit log ≡ some again)
    × (rewrite one_digit one_digit again ≡ some again)
unfolding read_rows parse_line row_line print_long
rewrite-again_example =
    rewrite-again one_digit one_digit log first_row (row 8 6 ∷ []) refl ((0, refl), ((5, refl), tt))
      (first-Readable, (second-Readable, tt))

-- The times 3 and 8 become 0 and 5.
times :
    rewrite one_digit one_digit log
    ≡ some (header_line ∷ row_line (pos 0) (row 0 7) ∷ row_line (pos 0) (row 5 6) ∷ [])
unfolding rewrite write_rows read_rows parse_line row_line print_long
times = refl
