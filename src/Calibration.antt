-- ===== src/Calibration.antt =====
-- src/load_cell_calibration.c: the dialogue that collects known values and their measurements, and the
-- fit at its end; and the calibration of src/load_cell_serv.c. A line of the dialogue is what `fgets`
-- read, without its last character; what is printed is not modelled.
pub mod Dialogue
pub mod Multipliers
mod Tests
use motor_stand.Prelude.{
  ℕ, ◌+◌, ◌-◌, ◌*◌, ◌/◌, Bool, ◌&&◌, Option, none, some, List, [], ◌∷◌, if◌then◌else◌, ◌==◌, ltb,
  set, take, length, map,
}
use motor_stand.Prelude.Int.{ℤ, pos}
use motor_stand.Prelude.Calls.{◌>>=◌}
use motor_stand.Prelude.Text.{codes, eq_text}
use motor_stand.Double.{Double, Strtod, ◌⊘◌}
use motor_stand.Ads1115.{adc_max}
use motor_stand.Matrix.{Memory}
use motor_stand.LeastSquares.{first_order}

-- The arrays of the dialogue, with as many elements as are allocated.
pub record Buffers (D : Type 0) : Type 0 where
  pub known_values : List D
  pub measurement : List D
  pub buf_len : ℕ
  pub buf_pos : ℕ

-- The dialogue goes on, is finished by "q", or writes outside an array.
pub data Answer (S : Type 0) : Type 0 where
  faulted : Answer S
  more finished : S → Answer S

-- The next round, unless the loop has ended.
abbrev pub carry_on : {S : Type 0} → Answer S → (S → Answer S) → Answer S
carry_on faulted next = faulted
carry_on (finished s) next = finished s
carry_on (more s) next = next s

module _ {D : Type 0} where
  -- The arrays at the start, with what `malloc` returned in them.
  pub opening : List D → List D → Buffers D
  opening known measured = record {
    known_values = known;
    measurement = measured;
    buf_len = 4;
    buf_pos = 0;
  }

  -- `realloc(...,buf_len*2)` counts bytes, of which a double has eight.
  pub grow : Buffers D → Buffers D
  grow s =
      let doubles = s.buf_len * 2 / 8 in
      record {
        known_values = take doubles s.known_values;
        measurement = take doubles s.measurement;
        buf_len = s.buf_len * 2;
        buf_pos = s.buf_pos;
      }

  -- The line "b".
  pub undo : Buffers D → Buffers D
  undo s = if s.buf_pos == 0 then s else record s { buf_pos = s.buf_pos - 1 }

  -- The two values are stored at `buf_pos`.
  pub store_values : D → D → Buffers D → Answer (Buffers D)
  store_values known measured s =
      if ltb s.buf_pos (length s.known_values) && ltb s.buf_pos (length s.measurement)
      then more (record {
        known_values = set s.known_values s.buf_pos known;
        measurement = set s.measurement s.buf_pos measured;
        buf_len = s.buf_len;
        buf_pos = s.buf_pos + 1;
      })
      else faulted

  pub enter : D → D → Buffers D → Answer (Buffers D)
  enter known measured s =
      store_values known measured (if s.buf_pos == s.buf_len then grow s else s)

module _ {D : Type 0} ⦃d : Double D⦄ where
  -- `((double)value_raw) / (double)ADC_MAX`
  pub normalised : ℤ → D
  normalised raw = d.of_long raw ⊘ d.of_long (pos adc_max)

  module _ (strtold : Strtod D) where
    -- A line, and what `next_value` answers if it is asked.
    pub answer : List ℕ → ℤ → Buffers D → Answer (Buffers D)
    answer line raw s =
        if eq_text [] line
        then more s
        else if eq_text (codes "b") line
        then more (undo s)
        else if eq_text (codes "q") line
        then finished s
        else enter (strtold line).0 (normalised raw) s

    -- The loop over the lines.
    pub dialogue : List (List ℕ × ℤ) → Buffers D → Answer (Buffers D)
    dialogue [] s = more s
    dialogue ((line, raw) ∷ lines) s = carry_on (answer line raw s) (dialogue lines)

  module _ (garbage : ℕ → List D) where
    -- The multiplier `m` and the offset `b` that are printed; `none` if there are no values or if an
    -- assertion fails.
    pub constants : Buffers D → Memory D → Option (D × D)
    constants s h =
        let swap = λ (a : D × D). some (a.1, a.0) in
        let fit = first_order garbage s.measurement s.known_values s.buf_pos h >>= swap in
        if s.buf_pos == 0 then none else fit

    -- The option `-c` of the server: `multiplier_m` and `multiplier_b`, from the known weights and what
    -- `next_value` answered for them.
    pub calibrate : List D → List ℤ → Memory D → Option (D × D)
    calibrate known_weights raw h = do
      let timestep = map d.of_long raw
      (multiplier_m, multiplier_b) ←
          first_order garbage timestep known_weights (length known_weights) h
      some (multiplier_m, multiplier_b)
