-- ===== src/ScaleMenu.antt =====
-- pi/ScaleWithMenu.ino: the sketch that reads commands over the serial line. The library of the converter
-- and the readings that it gives are parameters; each call of Serial.available is a poll, which finds a
-- character or nothing. The calls are kept with the latest first.
pub mod Lines
pub mod Commands
mod Tests
use motor_stand.Prelude.{
  ℕ, zero, suc, Bool, true, false, ◌||◌, Option, none, some, List, [], ◌∷◌, ◌++◌, if◌then◌else◌,
  ◌==◌,
}
use motor_stand.Prelude.Int.{ℤ}
use motor_stand.Prelude.Text.{codes, first}
use motor_stand.Prelude.Calls.{◌>>=◌}

abbrev pub loadcell_dout_pin : ℕ
loadcell_dout_pin = 16

abbrev pub loadcell_sck_pin : ℕ
loadcell_sck_pin = 4

pub data Poll : Type 0 where
  nothing : Poll
  arrived : ℕ → Poll

-- The calls of Serial, of the converter and of delay.
pub data Request : Type 0 where
  serial_begin set_scale get_units wait : ℕ → Request
  begin : ℕ → ℕ → Request
  print println : List ℕ → Request
  println_long : ℤ → Request
  tare : Request

-- `InputString`, `InputComplete` and the calls.
pub record Sketch : Type 0 where
  pub input_string : List ℕ
  pub input_complete : Bool
  pub requests : List Request

abbrev pub ask : Request → Sketch → Sketch
ask r m = record m { requests = r ∷ m.requests }

abbrev pub say : List ℕ → Sketch → Sketch
say text m = ask (println text) m

-- The globals, then `setup`.
pub set_up_scale : Sketch
set_up_scale =
    say (codes "t for tare, c for calibrate, r for reset scale, e for run scale. Press enter:\n") (
      say (codes "Scale initialized. Place known weight on scale.\n") (
        ask tare (
          ask (set_scale 1) (
            ask (begin loadcell_dout_pin loadcell_sck_pin) (
              ask (serial_begin 115200)
                (record { input_string = []; input_complete = false; requests = [] }))))))

-- What RunScale does with the character that ends it.
pub end_run : ℕ → Sketch → Sketch
end_run command m =
    if (command == b'c') || (command == b'C')
    then say (codes "Command 'c' received. Proceeding...") m
    else ask (wait 100) (
        say (codes "'. Incorrect command. Please restart the program.")
          (ask (print (command ∷ [])) (ask (print (codes "Received '")) m)))

-- `RunScale` behind its first line: a poll that finds nothing takes a reading. It does not return if no
-- poll finds a character.
pub run_scale : (List Request → ℤ) → List Poll → Sketch → Option (Sketch × List Poll)
run_scale units [] m = none
run_scale units (nothing ∷ ps) m =
    let read = ask (get_units 10) m in
    run_scale units ps (
      say (codes " wait for 'c'")
        (ask (println_long (units read.requests)) (say (codes "Raw Reading: ") read)))
run_scale units (arrived c ∷ ps) m = some (end_run c m, ps)

-- The switch of `loop`.
pub obey : (List Request → ℤ) → ℕ → List Poll → Sketch → Option (Sketch × List Poll)
obey units command ps m =
    if command == b't'
    then some (ask tare (say (codes "Doing the Tare.") m), ps)
    else if command == b'c'
    then some (say (codes "Doing the Calibrate.") m, ps)
    else if command == b'r'
    then some (ask (set_scale 1) (ask tare (say (codes "Doing the Scale Reset.") m)), ps)
    else if command == b'e'
    then run_scale units ps
        (say (codes "Waiting for user command 'c'...") (say (codes "Running Scale...") m))
    else some (say (codes "Invalid command. Please enter 't', 'c', 'r', or 'e'.") m, ps)

-- The reset behind the switch.
abbrev pub next_command : Sketch → Sketch
next_command m =
    say
      (codes
        "Waiting For Input,t for tare, c for calibrate, r for reset scale, e for run scale. Press enter:")
      (record m { input_string = []; input_complete = false })

-- The start of `loop`: `'\n'` is 10 and `'\r'` is 13.
pub take_poll : Poll → Sketch → Sketch
take_poll nothing m = m
take_poll (arrived c) m =
    if (c == 10) || (c == 13)
    then record m { input_complete = true }
    else record m { input_string = m.input_string ++ c ∷ [] }

-- `loop`, with the polls that are still to come; there is no result if they end before it does.
pub menu_loop : (List Request → ℤ) → List Poll → Sketch → Option (Sketch × List Poll)
menu_loop units [] m = none
menu_loop units (p ∷ ps) m =
    let taken = take_poll p m in
    let obeyed = do
      (after, rest) ← obey units (first taken.input_string) ps taken
      some (next_command after, rest)
    in if taken.input_complete then obeyed else some (taken, ps)

-- The first `n` calls of `loop`.
pub menu_loops : (List Request → ℤ) → ℕ → List Poll → Sketch → Option (Sketch × List Poll)
menu_loops units zero ps m = some (m, ps)
menu_loops units (suc n) ps m = do
  (after, rest) ← menu_loop units ps m
  menu_loops units n rest after
