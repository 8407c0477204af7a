-- ===== src/ScaleMenu/Lines.antt =====
-- What a user of pi/ScaleWithMenu.ino types, and the calls that it should cause.
use motor_stand.Prelude.{
  ℕ, zero, suc, ◌+◌, ◌≡◌, ◌≢◌, true, false, Bool, ◌||◌, List, [], ◌∷◌, ◌++◌, length, All, ◌==◌,
  if◌then◌else◌, replicate,
}
use motor_stand.Prelude.Int.{ℤ}
use motor_stand.Prelude.Text.{codes, first}
use motor_stand.ScaleMenu.{
  Poll, nothing, arrived, Request, print, println, println_long, tare, set_scale, get_units, wait,
  Sketch,
}

-- The characters that polls find.
abbrev pub found : List Poll → List ℕ
found [] = []
found (nothing ∷ ps) = found ps
found (arrived c ∷ ps) = c ∷ found ps

abbrev pub ends_line : ℕ → Bool
ends_line c = (c == 10) || (c == 13)

-- No poll finds the end of a line.
abbrev pub IsPart : List Poll → Type 0
IsPart ps = All (λ c. ends_line c ≡ false) (found ps)

-- A typed line: the polls that find its characters and the one that finds its end. Behind the command
-- that runs the scale, a number of polls find nothing and then one finds a key.
pub data Line : Type 0 where
  typed : List Poll → ℕ → Line
  running : List Poll → ℕ → ℕ → ℕ → Line

abbrev pub typed_of : Line → List Poll
typed_of (typed qs c) = qs
typed_of (running qs c n key) = qs

abbrev pub end_of : Line → ℕ
end_of (typed qs c) = c
end_of (running qs c n key) = c

abbrev pub keys_of : Line → List Poll
keys_of (typed qs c) = []
keys_of (running qs c n key) = replicate n nothing ++ arrived key ∷ []

abbrev pub polls_of : Line → List Poll
polls_of l = typed_of l ++ arrived (end_of l) ∷ keys_of l

-- The first character of the line.
abbrev pub command_of : Line → ℕ
command_of l = first (found (typed_of l))

abbrev pub IsCommand : Line → Type 0
IsCommand (typed qs c) = first (found qs) ≢ b'e'
IsCommand (running qs c n key) = first (found qs) ≡ b'e'

abbrev pub IsLine : Line → Type 0
IsLine l = IsPart (typed_of l) × (ends_line (end_of l) ≡ true) × IsCommand l

-- The commands but "e", with the calls they cause, in order.
abbrev pub menu : List (ℕ × List Request)
menu =
    (b't', println (codes "Doing the Tare.") ∷ tare ∷ [])
    ∷ (b'c', println (codes "Doing the Calibrate.") ∷ [])
    ∷ (b'r', println (codes "Doing the Scale Reset.") ∷ tare ∷ set_scale 1 ∷ [])
    ∷ []

abbrev pub invalid : List Request
invalid = println (codes "Invalid command. Please enter 't', 'c', 'r', or 'e'.") ∷ []

abbrev pub chosen : List (ℕ × List Request) → ℕ → List Request
chosen [] command = invalid
chosen ((key, calls) ∷ more) command =
    let rest = chosen more command in if command == key then calls else rest

abbrev pub prompt : Request
prompt = println (
    codes
      "Waiting For Input,t for tare, c for calibrate, r for reset scale, e for run scale. Press enter:")

-- The calls for the key that ends a run of the scale.
abbrev pub goodbye : ℕ → List Request
goodbye key =
    if (key == b'c') || (key == b'C')
    then println (codes "Command 'c' received. Proceeding...") ∷ []
    else print (codes "Received '")
      ∷ print (key ∷ [])
      ∷ println (codes "'. Incorrect command. Please restart the program.")
      ∷ wait 100
      ∷ []

-- The latest call is first.
abbrev pub after_calls : List Request → List Request → List Request
after_calls [] requests = requests
after_calls (r ∷ rs) requests = after_calls rs (r ∷ requests)

module _ (units : List Request → ℤ) where
  -- `n` readings of the scale.
  abbrev pub readings : ℕ → List Request → List Request
  readings zero requests = requests
  readings (suc n) requests =
      let value = units (get_units 10 ∷ requests) in
      readings n (
        after_calls
          (get_units 10
            ∷ println (codes "Raw Reading: ")
            ∷ println_long value
            ∷ println (codes " wait for 'c'")
            ∷ [])
          requests)

  -- The calls for the command of a line.
  abbrev pub answered : Line → List Request → List Request
  answered (typed qs c) requests = after_calls (chosen menu (first (found qs))) requests
  answered (running qs c n key) requests = after_calls (goodbye key) (
      readings n (
        after_calls
          (println (codes "Running Scale...")
            ∷ println (codes "Waiting for user command 'c'...")
            ∷ [])
          requests))

  abbrev pub all_obeyed : List Line → List Request → List Request
  all_obeyed [] requests = requests
  all_obeyed (l ∷ ls) requests = all_obeyed ls (prompt ∷ answered l requests)

abbrev pub all_polls : List Line → List Poll
all_polls [] = []
all_polls (l ∷ ls) = polls_of l ++ all_polls ls

-- The calls of `loop` that the lines take; what the scale runs through belongs to the call it starts in.
abbrev pub all_loops : List Line → ℕ
all_loops [] = 0
all_loops (l ∷ ls) = suc (length (typed_of l)) + all_loops ls

-- The sketch between two lines.
abbrev pub idle : List Request → Sketch
idle requests = record { input_string = []; input_complete = false; requests = requests }
