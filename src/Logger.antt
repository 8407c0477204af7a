-- ===== src/Logger.antt =====
-- The logger, src/load_cell_logger.c: its command line and the lines that it writes for a batch. The
-- file is the list of the characters that were appended to it.
pub mod Lines
pub mod Arguments
mod Tests
use motor_stand.Prelude.{
  ℕ, zero, suc, ◌+◌, ◌≡◌, Bool, not, ◌&&◌, ◌||◌, Option, none, some, List, [], ◌∷◌, ◌++◌,
  if◌then◌else◌, ◌==◌, leb, get_elem?, get_or, take, length,
}
use motor_stand.Prelude.Int.{ℤ, pos}
use motor_stand.Prelude.Text.{codes, eq_text, print_long, first, tail}
use motor_stand.Double.{Double, Strtod, ◌⊕◌, ◌⊗◌, ◌⊘◌}
use motor_stand.Ads1115.{adc_max}
use motor_stand.LoadCell.{OutputMinimal, OutputBatch}

-- `logger_data`, with the file beside it as the state of the callback
pub record LoggerData (D : Type 0) : Type 0 where
  pub m : D
  pub b : D

-- `snprintf(buf,128,...)` keeps 127 characters at most.
abbrev pub buffer : List ℕ → List ℕ
buffer s = take 127 s

abbrev tab : ℕ
tab = 9

abbrev newline : ℕ
newline = 10

module _ {D : Type 0} ⦃d : Double D⦄ where
  -- `m * ((double)min->raw_value / (double)ADC_MAX) + b`
  pub scaled : LoggerData D → OutputMinimal → D
  scaled l min = l.m ⊗ (d.of_long min.raw_value ⊘ d.of_long (pos adc_max)) ⊕ l.b

  pub line : LoggerData D → OutputMinimal → List ℕ
  line l min = buffer (
      print_long (pos min.collect_time)
      ++ tab
        ∷ (print_long min.raw_value
            ++ tab ∷ (d.show_lf (scaled l min) ++ tab ∷ (d.show_lf d.nought ++ newline ∷ []))))

  -- `n` rounds of the loop from index `i` on; `none` is a read outside the array.
  pub write_entries : LoggerData D → OutputBatch → ℕ → ℕ → List ℕ → Option (List ℕ)
  write_entries l batch zero i file = some file
  write_entries l batch (suc n) i file = elim (get_elem? batch.entries i) [
    | none ↦ none
    | some min ↦ write_entries l batch n (i + 1) (file ++ line l min)
  ]

  pub write_callback_batch : LoggerData D → OutputBatch → List ℕ → Option (List ℕ)
  write_callback_batch l batch file = write_entries l batch batch.count 0 file

-- How the set-up ends: it prints its usage, refuses the constants, fails to open the file, or goes on
-- with a file and the constants.
pub data Setup (D : Type 0) : Type 0 where
  usage bad_constants no_file : Setup D
  logging : List ℕ → LoggerData D → Setup D

module _ {D : Type 0} ⦃d : Double D⦄ (strtod : Strtod D) where
  -- `m = strtod(argv[3],&argv[2])` and the test behind it, which looks at `argv[3]`
  pub read_constants : List ℕ → Option (LoggerData D)
  read_constants text =
      if not (first text == b',')
      then none
      else some (record { m = (strtod text).0; b = (strtod (tail text)).0 })

  -- Whether `fopen` succeeds for a name.
  module _ (opens : List ℕ → Bool) where
    abbrev open_file : List ℕ → LoggerData D → Setup D
    open_file name l = if eq_text (codes "-") name || opens name then logging name l else no_file

    -- `argv`, the program's name included.
    pub set_up : List (List ℕ) → Setup D
    set_up argv =
        let argc = length argv in
        let arg = λ (i : ℕ). get_or argv i [] in
        let none_given : LoggerData D = record { m = d.nought; b = d.nought } in
        if (not (argc == 2) && not (argc == 4)) || (leb 2 argc && eq_text (codes "-h") (arg 1))
        then usage
        else if argc == 4
        then if not (eq_text (codes "-k") (arg 2))
          then usage
          else elim (read_constants (arg 3)) [ none ↦ bad_constants | some l ↦ open_file (arg 1) l ]
        else open_file (arg 1) none_given
