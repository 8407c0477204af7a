-- ===== src/ScaleMenu/Commands.antt =====
-- Which commands pi/ScaleWithMenu.ino obeys.
use motor_stand.Prelude.{
  ℕ, zero, suc, ◌+◌, ◌≡◌, ◌≢◌, refl, ap, ap₂, ◌∙◌, true, false, ◌||◌, some, List, [], ◌∷◌, ◌++◌,
  length, append_assoc, append-nil, All, ◌==◌, ==_of_ne, Bool-cases, inl, inr, replicate, arith,
}
use motor_stand.Prelude.Int.{ℤ}
use motor_stand.Prelude.Text.{codes, first}
use motor_stand.Prelude.Calls.{◌>>=◌}
use motor_stand.ScaleMenu.{
  Poll, nothing, arrived, Request, Sketch, say, obey, end_run, run_scale, take_poll, menu_loop,
  menu_loops,
}
use motor_stand.ScaleMenu.Lines.{
  Line, typed, running, found, ends_line, IsPart, typed_of, end_of, keys_of, polls_of, command_of,
  IsCommand, IsLine, menu, chosen, prompt, goodbye, after_calls, readings, answered, all_obeyed,
  all_polls, all_loops, idle,
}

-- `k` loops behind one for each of the polls.
abbrev behind : List Poll → ℕ → ℕ
behind [] k = k
behind (p ∷ qs) k = suc (behind qs k)

behind-length : (qs : List Poll) (k : ℕ) → behind qs k ≡ length qs + k
behind-length [] k = omega arith
behind-length (p ∷ qs) k = omega (arith, behind-length qs k)

module _ (units : List Request → ℤ) where
  obey-chosen :
      (command : ℕ) (ps : List Poll) (m : Sketch)
      → command ≢ b'e'
      → obey units command ps m
        ≡ some (record m { requests = after_calls (chosen menu command) m.requests }, ps)
  unfolding obey
  obey-chosen command ps m other = elim (Bool-cases (command == b't')) [
    | inl a ↦ rw a refl
    | inr a ↦ elim (Bool-cases (command == b'c')) [
      | inl b ↦ rw (a, b) refl
      | inr b ↦ elim (Bool-cases (command == b'r')) [
        | inl c ↦ rw (a, b, c) refl
        | inr c ↦ rw (a, b, c, ==_of_ne command b'e' other) refl
      ]
    ]
  ]

  run_scale-readings :
      (n key : ℕ) (ps : List Poll) (m : Sketch)
      → run_scale units (replicate n nothing ++ arrived key ∷ ps) m
        ≡ some (record m { requests = after_calls (goodbye key) (readings units n m.requests) }, ps)
  unfolding run_scale end_run
  run_scale-readings zero key ps m = elim (Bool-cases ((key == b'c') || (key == b'C'))) [
    | inl e ↦ rw e refl
    | inr e ↦ rw e refl
  ]
  run_scale-readings (suc n) key ps m = run_scale-readings n key ps _

  -- A loop in which no line ends.
  menu_loop-part :
      (p : Poll) (qs : List Poll) (m : Sketch)
      → m.input_complete ≡ false
      → IsPart (p ∷ [])
      → menu_loop units (p ∷ qs) m
        ≡ some (record m { input_string = m.input_string ++ found (p ∷ []) }, qs)
  unfolding menu_loop take_poll
  menu_loop-part nothing qs m still part = rw (still, append-nil m.input_string) refl
  menu_loop-part (arrived c) qs m still part = rw (part.0, still) refl

  -- The loop in which a line ends.
  menu_loop-ended :
      (c : ℕ) (ps rest : List Poll) (text : List ℕ) (before after : List Request)
      → ends_line c ≡ true
      → obey units
          (first text)
          ps
          (record { input_string = text; input_complete = true; requests = before })
        ≡ some (record { input_string = text; input_complete = true; requests = after }, rest)
      → menu_loop units
          (arrived c ∷ ps)
          (record { input_string = text; input_complete = false; requests = before })
        ≡ some (idle (prompt ∷ after), rest)
  unfolding menu_loop take_poll
  menu_loop-ended c ps rest text before after end obeys = rw (end, obeys) refl

  -- The loops that gather a line, and those behind it.
  gathered :
      (qs ps : List Poll) (k : ℕ) (text : List ℕ) (requests : List Request)
      → IsPart qs
      → menu_loops units
          (behind qs k)
          (qs ++ ps)
          (record { input_string = text; input_complete = false; requests = requests })
        ≡ menu_loops units k ps (record {
          input_string = text ++ found qs;
          input_complete = false;
          requests = requests;
        })
  unfolding menu_loops
  gathered [] ps k text requests part = rw (append-nil text) refl
  gathered (nothing ∷ qs) ps k text requests part =
      ap (λ o. o >>= λ done. menu_loops units (behind qs k) done.1 done.0)
        (menu_loop-part nothing (qs ++ ps) _ refl tt)
      ∙ gathered qs ps k (text ++ []) requests part
      ∙ rw (append-nil text) refl
  gathered (arrived a ∷ qs) ps k text requests part =
      ap (λ o. o >>= λ done. menu_loops units (behind qs k) done.1 done.0)
        (menu_loop-part (arrived a) (qs ++ ps) _ refl (part.0, tt))
      ∙ gathered qs ps k (text ++ a ∷ []) requests part.1
      ∙ rw (append_assoc text (a ∷ []) (found qs)) refl

  obey-answered :
      (l : Line) (ps : List Poll) (m : Sketch)
      → IsCommand l
      → obey units (command_of l) (keys_of l ++ ps) m
        ≡ some (record m { requests = answered units l m.requests }, ps)
  unfolding obey
  obey-answered (typed qs c) ps m other = obey-chosen (first (found qs)) ps m other
  obey-answered (running qs c n key) ps m run =
      rw (run, append_assoc (replicate n nothing) (arrived key ∷ []) ps)
        (run_scale-readings n key ps
          (say (codes "Waiting for user command 'c'...") (say (codes "Running Scale...") m)))

  -- The loops of a line, and those behind it.
  line-answered :
      (l : Line) (ps : List Poll) (k : ℕ) (requests : List Request)
      → IsLine l
      → menu_loops units (behind (typed_of l) (suc k)) (polls_of l ++ ps) (idle requests)
        ≡ menu_loops units k ps (idle (prompt ∷ answered units l requests))
  unfolding menu_loops
  line-answered l ps k requests (part, end, command) =
      let split : polls_of l ++ ps ≡ typed_of l ++ arrived (end_of l) ∷ (keys_of l ++ ps) =
        append_assoc (typed_of l) (arrived (end_of l) ∷ keys_of l) ps in
      ap (λ t. menu_loops units (behind (typed_of l) (suc k)) t (idle requests)) split
      ∙ gathered (typed_of l) _ (suc k) [] requests part
      ∙ ap (λ o. o >>= λ done. menu_loops units k done.1 done.0)
          (menu_loop-ended (end_of l) (keys_of l ++ ps) ps (found (typed_of l)) requests
            (answered units l requests) end (obey-answered l ps _ command))

  -- Lines are typed one behind another, to a sketch that waits for a command. Each is gathered from polls
  -- of which some may find nothing, and is obeyed once, at its end: the command that is its first
  -- character, of the menu, or "e", which reads the scale until a key is found, or an invalid one, causes
  -- its calls, in the order of the lines, and the prompt. Behind the last line the sketch waits again, with
  -- an empty line.
  pub menu_loops-lines :
      (ls : List Line) (ps : List Poll) (requests : List Request)
      → All IsLine ls
      → menu_loops units (all_loops ls) (all_polls ls ++ ps) (idle requests)
        ≡ some (idle (all_obeyed units ls requests), ps)
  unfolding menu_loops
  menu_loops-lines [] ps requests lines = refl
  menu_loops-lines (l ∷ ls) ps requests (line, lines) =
      let count : all_loops (l ∷ ls) ≡ behind (typed_of l) (suc (all_loops ls)) =
        omega (arith, behind-length (typed_of l) (suc (all_loops ls))) in
      let split : all_polls (l ∷ ls) ++ ps ≡ polls_of l ++ (all_polls ls ++ ps) =
        append_assoc (polls_of l) (all_polls ls) ps in
      ap₂ (λ n t. menu_loops units n t (idle requests)) count split
      ∙ line-answered l (all_polls ls ++ ps) (all_loops ls) requests line
      ∙ menu_loops-lines ls ps (prompt ∷ answered units l requests) lines
