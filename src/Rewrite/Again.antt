-- ===== src/Rewrite/Again.antt =====
-- A log that src/output_rewrite.c has rewritten stays the same when it is rewritten again.
use motor_stand.Prelude.{
  ℕ, ◌≡◌, refl, ap, ap₂, ◌∙◌, true, some, List, [], ◌∷◌, map, All, arith, ◌++◌,
}
use motor_stand.Prelude.Int.{ℤ, pos, negsuc}
use motor_stand.Prelude.Text.{first, print_long, print_long-first, is_digit}
use motor_stand.Double.{Double, Strtod}
use motor_stand.Integers.{plus, minus}
use motor_stand.Rewrite.{
  Row, Strtol, header_line, row_line, parse_line, read_rows, write_rows, rewrite,
}

minus_self : (z : ℤ) → plus z (minus z) ≡ pos 0
minus_self (pos n) = ground arith
minus_self (negsuc n) = ground arith

minus_zero : (z : ℤ) → plus z (minus (pos 0)) ≡ z
minus_zero (pos n) = ground arith
minus_zero (negsuc n) = ground arith

-- The row is not earlier than `offset`.
abbrev pub NotBefore : {D : Type 0} → ℤ → Row D → Type 0
NotBefore offset r = (n : ℕ) × (plus r.collect_time (minus offset) ≡ pos n)

module _ {D : Type 0} ⦃d : Double D⦄ (strtol : Strtol) (strtod : Strtod D) where
  -- The documentation of strtol: white space before the number is skipped, and the number ends before a
  -- tab. That is, for one number that fits a long.
  abbrev pub ReadsLong : ℤ → Type 0
  ReadsLong z =
      (rest : List ℕ)
      → (strtol (print_long z ++ 9 ∷ rest) ≡ (z, 9 ∷ rest))
        × (strtol (9 ∷ (print_long z ++ 9 ∷ rest)) ≡ (z, 9 ∷ rest))

  -- The documentation of strtod: a tab before the number is skipped, and the number ends before a tab or
  -- the end of the line. The value that is read is one that has the same six decimals, not always the one
  -- that was printed.
  pub record ReadsDouble (v : D) : Type 0 where
    pub read : D
    pub text : d.show_lf read ≡ d.show_lf v
    pub tab : (rest : List ℕ) → strtod (9 ∷ (d.show_lf v ++ 9 ∷ rest)) ≡ (read, 9 ∷ rest)
    pub end : (rest : List ℕ) → strtod (9 ∷ (d.show_lf v ++ 10 ∷ rest)) ≡ (read, 10 ∷ rest)

  -- The numbers that are printed for the row.
  pub record Readable (offset : ℤ) (r : Row D) : Type 0 where
    pub time : ReadsLong (plus r.collect_time (minus offset))
    pub raw : ReadsLong r.raw_value
    pub value : ReadsDouble r.value
    pub value_tare : ReadsDouble r.value_tare

  -- The row that is read for a printed one.
  abbrev reread : (offset : ℤ) (r : Row D) → Readable offset r → Row D
  reread offset r b = record {
    collect_time = plus r.collect_time (minus offset);
    raw_value = r.raw_value;
    value = b.value.read;
    value_tare = b.value_tare.read;
  }

  parse_line-row_line :
      (offset : ℤ) (r : Row D) (b : Readable offset r)
      → parse_line strtol strtod (row_line offset r) ≡ reread offset r b
  unfolding parse_line row_line
  parse_line-row_line offset r b =
      rw ((b.time _).0, (b.raw _).1, b.value.tab _, b.value_tare.end []) refl

  row_line-reread :
      (offset : ℤ) (r : Row D) (b : Readable offset r)
      → row_line (pos 0) (reread offset r b) ≡ row_line offset r
  unfolding row_line
  row_line-reread offset r b =
      rw (minus_zero (plus r.collect_time (minus offset)), b.value.text, b.value_tare.text) refl

  row_line-first :
      (offset : ℤ) (r : Row D) → NotBefore offset r → is_digit (first (row_line offset r)) ≡ true
  unfolding row_line
  row_line-first offset r (n, e) = rw e (print_long-first n _)

  -- The rows of a written log are printed as they stand there.
  read_rows-row_line :
      (offset : ℤ) (rows : List (Row D))
      → All (NotBefore offset) rows
      → All (Readable offset) rows
      → map (row_line (pos 0)) (read_rows strtol strtod (map (row_line offset) rows))
        ≡ map (row_line offset) rows
  unfolding read_rows
  read_rows-row_line offset [] late readable = refl
  read_rows-row_line offset (r ∷ rows) (l, late) (b, readable) = rw (row_line-first offset r l) (
      ap₂ (λ line lines. line ∷ lines)
        (ap (row_line (pos 0)) (parse_line-row_line offset r b) ∙ row_line-reread offset r b)
        (read_rows-row_line offset rows late readable))

  -- The rows that are read behind the header of a written log.
  read_rows-written :
      (r : Row D) (rows : List (Row D)) (b : Readable r.collect_time r)
      → NotBefore r.collect_time r
      → read_rows strtol strtod (header_line ∷ map (row_line r.collect_time) (r ∷ rows))
        ≡ reread r.collect_time r b ∷ read_rows strtol strtod (map (row_line r.collect_time) rows)
  unfolding read_rows
  read_rows-written r rows b l = rw (row_line-first r.collect_time r l) (
      ap (λ t. t ∷ read_rows strtol strtod (map (row_line r.collect_time) rows))
        (parse_line-row_line r.collect_time r b))

  -- A log is given whose first row is `r` and in which no row is earlier than `r`. If strtol and strtod
  -- read the numbers that are printed for its rows as documented, where strtod may read another number of
  -- the same six decimals, then its rewriting, rewritten again, stays the same.
  pub rewrite-again :
      (lines : List (List ℕ)) (r : Row D) (rows : List (Row D))
      → read_rows strtol strtod lines ≡ r ∷ rows
      → All (NotBefore r.collect_time) (r ∷ rows)
      → All (Readable r.collect_time) (r ∷ rows)
      → (again : List (List ℕ)) × (rewrite strtol strtod lines ≡ some again)
        × (rewrite strtol strtod again ≡ some again)
  unfolding rewrite write_rows
  rewrite-again lines r rows e (l, late) (b, readable) =
      let offset = r.collect_time in
      let more = read_rows strtol strtod (map (row_line offset) rows) in
      (
        header_line ∷ map (row_line offset) (r ∷ rows),
        rw e refl,
        ap (write_rows strtol strtod) (read_rows-written r rows b l)
            ∙ ap (λ z. some (header_line ∷ map (row_line z) (reread offset r b ∷ more)))
                (minus_self offset)
            ∙ ap₂ (λ line lines. some (header_line ∷ line ∷ lines)) (row_line-reread offset r b)
                (read_rows-row_line offset rows late readable),
      )
