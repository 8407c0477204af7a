-- ===== src/Server/Arguments.antt =====
-- The command line of the server, `main` of src/load_cell_serv.c up to the call of `init_adc`. What the
-- system calls answer is a parameter.
pub mod Weights
mod Tests
use motor_stand.Prelude.{
  ℕ, zero, suc, Bool, Option, none, some, ◌⊎◌, inl, inr, List, [], ◌∷◌, ◌++◌, not, if◌then◌else◌,
  ◌==◌, ltb, get_elem?, length,
}
use motor_stand.Prelude.Text.{codes, eq_text, first, tail}
use motor_stand.Double.{Double, Strtod}

-- The two ways to the multipliers: `-c` with the known weights, `-k` with the multipliers.
pub data Mode (D : Type 0) : Type 0 where
  weights : List D → Mode D
  multipliers : D → D → Mode D

-- How the command line is taken: the messages before an exit, a read of a null pointer or a write outside
-- an array, or the mode and the name of the file, if one is written.
pub data Plan (D : Type 0) : Type 0 where
  usage socket_failed no_broadcast unknown_argument bad_constants bad_address no_filename no_file
        no_start_flag bad_flag faulted :
      Plan D
  ready : Mode D → Option (List ℕ) → Plan D

-- The answers of `socket`, `setsockopt`, `inet_pton`, `open` and the `write` of the start flag.
pub record ServerCalls : Type 0 where
  pub socket : Bool
  pub broadcast : Bool
  pub pton : List ℕ → Bool
  pub opens : List ℕ → Bool
  pub writes_flag : List ℕ → Bool

-- `malloc(sizeof(double) * 80)`
abbrev pub weights_capacity : ℕ
weights_capacity = 80

module _ {D : Type 0} (strtod : Strtod D) where
  -- The loop of `-c`, with `room` elements left in the array; `none` is a write outside the array or a
  -- read behind the end of the text.
  pub read_weights : ℕ → List ℕ → List D → Option (List D)
  read_weights zero text known = none
  read_weights (suc room) [] known = none
  read_weights (suc room) (c ∷ text) known =
      let (value, text) = strtod text in
      let known = known ++ value ∷ [] in
      let more = read_weights room text known in if first text == b',' then more else some known

  pub read_multipliers : List ℕ → Plan D ⊎ Mode D
  read_multipliers text =
      let (m, rest) = strtod text in
      if not (first rest == b',')
      then inl bad_constants
      else inr (multipliers m (strtod (tail rest)).0)

  pub read_mode : List (List ℕ) → Plan D ⊎ Mode D
  read_mode argv = elim (get_elem? argv 1) [
    | none ↦ inl faulted
    | some flag ↦
        if eq_text (codes "-c") flag
        then elim (get_elem? argv 2) [
          | none ↦ inl faulted
          | some text ↦ elim (read_weights weights_capacity text []) [
            | none ↦ inl faulted
            | some known ↦ inr (weights known)
          ]
        ]
        else if eq_text (codes "-k") flag
        then elim (get_elem? argv 2) [ none ↦ inl faulted | some text ↦ read_multipliers text ]
        else if eq_text (codes "-h") flag
        then inl usage
        else inl unknown_argument
  ]

  module _ (calls : ServerCalls) where
    -- The flag `-w` and its filename.
    pub read_output : List (List ℕ) → Mode D → Plan D
    read_output argv mode = elim (get_elem? argv 4) [
      | none ↦ ready mode none
      | some flag ↦ if not (eq_text (codes "-w") flag) then bad_flag else elim (get_elem? argv 5) [
        | none ↦ no_filename
        | some name ↦
            if not (calls.opens name)
            then no_file
            else if calls.writes_flag name
            then ready mode (some name)
            else no_start_flag
      ]
    ]

    pub read_address : List (List ℕ) → Mode D → Plan D
    read_address argv mode = elim (get_elem? argv 3) [
      | none ↦ faulted
      | some address ↦ if calls.pton address then read_output argv mode else bad_address
    ]

    -- `argv`, the program's name included; an element behind its end is a null pointer.
    pub command_line : List (List ℕ) → Plan D
    command_line argv =
        if ltb 6 (length argv)
        then usage
        else if not calls.socket
        then socket_failed
        else if not calls.broadcast
        then no_broadcast
        else elim (read_mode argv) [ inl plan ↦ plan | inr mode ↦ read_address argv mode ]
