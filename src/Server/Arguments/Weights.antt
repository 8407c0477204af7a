-- ===== src/Server/Arguments/Weights.antt =====
-- The lists of weights and the multipliers on the command line of src/load_cell_serv.c.
use motor_stand.Prelude.{
  ℕ, zero, suc, ◌≤◌, ◌<◌, ◌≡◌, refl, sym, ap, ◌∙◌, true, none, some, List, [], ◌∷◌, ◌++◌, map,
  append_assoc, append-nil, All, length, arith,
}
use motor_stand.Prelude.Text.{codes}
use motor_stand.Double.{Strtod}
use motor_stand.Server.Arguments.{
  weights, multipliers, ready, faulted, ServerCalls, weights_capacity, read_weights,
  read_multipliers, read_mode, read_address, read_output, command_line,
}

-- Numerals with commas between them.
abbrev pub comma_list : List ℕ → List (List ℕ) → List ℕ
comma_list t [] = t
comma_list t (u ∷ ts) = t ++ b',' ∷ comma_list u ts

-- What may follow a numeral in such a list.
abbrev pub Ends : List ℕ → Type 0
Ends [] = Unit {0}
Ends (c ∷ rest) = c ≡ b','

-- `strtod` reads the numeral `t` with the value of `t`, and stops behind it.
abbrev pub Reads : {D : Type 0} → Strtod D → (List ℕ → D) → List ℕ → Type 0
Reads strtod value t = (rest : List ℕ) → Ends rest → strtod (t ++ rest) ≡ (value t, rest)

module _ {D : Type 0} (strtod : Strtod D) (value : List ℕ → D) where
  read_last : (t : List ℕ) → Reads strtod value t → strtod t ≡ (value t, [])
  read_last t r = ap strtod (sym (append-nil t)) ∙ r [] tt

  read_weights-comma_list :
      (room c : ℕ) (t : List ℕ) (ts : List (List ℕ)) (known : List D)
      → All (Reads strtod value) (t ∷ ts)
      → length (t ∷ ts) ≤ room
      → read_weights strtod room (c ∷ comma_list t ts) known ≡ some (known ++ map value (t ∷ ts))
  unfolding read_weights
  read_weights-comma_list zero c t ts known rs le = absurd (omega arith)
  read_weights-comma_list (suc room) c t [] known (r, rs) le = rw (read_last t r) refl
  read_weights-comma_list (suc room) c t (u ∷ ts) known (r, rs) le =
      rw (r (b',' ∷ comma_list u ts) refl) (
        read_weights-comma_list room b',' u ts (known ++ value t ∷ []) rs (omega arith)
        ∙ ap some (append_assoc known (value t ∷ []) (map value (u ∷ ts))))

  read_weights-overflow :
      (room c : ℕ) (t : List ℕ) (ts : List (List ℕ)) (known : List D)
      → All (Reads strtod value) (t ∷ ts)
      → room < length (t ∷ ts)
      → read_weights strtod room (c ∷ comma_list t ts) known ≡ none
  unfolding read_weights
  read_weights-overflow zero c t ts known rs lt = refl
  read_weights-overflow (suc room) c t [] known rs lt = absurd (omega arith)
  read_weights-overflow (suc room) c t (u ∷ ts) known (r, rs) lt =
      rw (r (b',' ∷ comma_list u ts) refl)
        (read_weights-overflow room b',' u ts (known ++ value t ∷ []) rs (omega arith))

module _ {D : Type 0} (strtod : Strtod D) (value : List ℕ → D) (calls : ServerCalls) where
  abbrev pub Accepts : List ℕ → Type 0
  Accepts address = (calls.socket ≡ true) × (calls.broadcast ≡ true) × (calls.pton address ≡ true)

  -- If the socket is set up and the address is taken: the option `-c` takes the values of a list of at
  -- most 80 numerals, which `strtod` reads, with commas between them. The first character of its argument
  -- is skipped, whatever it is.
  pub command_line-weights :
      (prog address : List ℕ) (c : ℕ) (t : List ℕ) (ts : List (List ℕ))
      → Accepts address
      → All (Reads strtod value) (t ∷ ts)
      → length (t ∷ ts) ≤ weights_capacity
      → command_line strtod calls (prog ∷ codes "-c" ∷ (c ∷ comma_list t ts) ∷ address ∷ [])
        ≡ ready (weights (map value (t ∷ ts))) none
  unfolding command_line read_mode read_address read_output
  command_line-weights prog address c t ts (socket, broadcast, pton) rs le =
      rw (socket, broadcast)
        (rw (read_weights-comma_list strtod value weights_capacity c t ts [] rs le) (rw pton refl))

  -- If the socket is set up and the address is taken: a list of more than 80 numerals, which `strtod`
  -- reads, with commas between them is written behind the end of the array.
  pub command_line-overflow :
      (prog address : List ℕ) (c : ℕ) (t : List ℕ) (ts : List (List ℕ))
      → Accepts address
      → All (Reads strtod value) (t ∷ ts)
      → weights_capacity < length (t ∷ ts)
      → command_line strtod calls (prog ∷ codes "-c" ∷ (c ∷ comma_list t ts) ∷ address ∷ [])
        ≡ faulted
  unfolding command_line read_mode
  command_line-overflow prog address c t ts (socket, broadcast, pton) rs lt =
      rw (socket, broadcast)
        (rw (read_weights-overflow strtod value weights_capacity c t ts [] rs lt) refl)

  -- If the socket is set up and the address is taken: the option `-k` takes the two numerals of the form
  -- "m,b", which `strtod` reads, as the multipliers, and `-w` the name of a file that can be opened and
  -- written.
  pub command_line-multipliers :
      (prog address m b name : List ℕ)
      → Accepts address
      → Reads strtod value m
      → Reads strtod value b
      → calls.opens name ≡ true
      → calls.writes_flag name ≡ true
      → command_line strtod calls
          (prog ∷ codes "-k" ∷ comma_list m (b ∷ []) ∷ address ∷ codes "-w" ∷ name ∷ [])
        ≡ ready (multipliers (value m) (value b)) (some name)
  unfolding command_line read_mode read_multipliers read_address read_output
  command_line-multipliers prog address m b name (socket, broadcast, pton) rm rb opens flag =
      rw (socket, broadcast)
        (rw (rm (b',' ∷ b) refl)
          (rw (read_last strtod value b rb) (rw pton (rw (opens, flag) refl))))
