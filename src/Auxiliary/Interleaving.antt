-- ===== src/Auxiliary/Interleaving.antt =====
-- What holds of the reset flag of src/load_cell_serv.c in every interleaving of the threads.
use motor_stand.Prelude.{
  ℕ, ◌+◌, ◌≤◌, ◌≡◌, refl, inl, inr, ◌⊎◌, Bool, Option, true, false, none, some, List, [], ◌∷◌, ◌==◌,
  Bool-cases, arith,
}
use motor_stand.Double.{Double}
use motor_stand.Server.{Tick, Loop}
use motor_stand.Auxiliary.{
  OpType, op_reset, op_tare, op_ack, Handler, absent, load_reset, acknowledging, serving,
  exchange_reset, finished, Main, sampling, checking, loading, resetting, exchanging, Event,
  requested, was_reset, System, become, serve, set_flag, handle_auxillary_command, clear_flag,
  main_step, Step, accepted, handled, worked, Run, here, then_, launched,
}

abbrev pub requests : List Event → ℕ
requests [] = 0
requests (requested ∷ es) = requests es + 1
requests (was_reset ∷ es) = requests es

abbrev pub resets : List Event → ℕ
resets [] = 0
resets (requested ∷ es) = resets es
resets (was_reset ∷ es) = resets es + 1

-- Whether a request came after the last reset.
abbrev pub unserved : List Event → Bool
unserved [] = false
unserved (requested ∷ es) = true
unserved (was_reset ∷ es) = false

-- How many resets the main loop is about to do.
abbrev pub under_way : Main → ℕ
under_way resetting = 1
under_way sampling = 0
under_way checking = 0
under_way loading = 0
under_way (exchanging e) = 0

-- The flag is 0 or 1, and stays 1 while the main loop is clearing it, for the value it expects.
abbrev pub Flag : Main → ℕ → Type 0
Flag loading f = f ≡ 1
Flag (exchanging e) f = (e ≡ 1) × (f ≡ 1)
Flag sampling f = f ≤ 1
Flag checking f = f ≤ 1
Flag resetting f = f ≤ 1

pub record IsValid {D : Type 0} (s : System D) : Type 0 where
  pub flag : Flag s.main s.reset
  pub served : unserved s.log ≡ true → 1 ≤ s.reset + under_way s.main
  pub counted : resets s.log + s.reset + under_way s.main ≤ requests s.log

pub Flag-le : (pc : Main) (f : ℕ) → Flag pc f → f ≤ 1
Flag-le loading f h = omega arith
Flag-le (exchanging e) f h = omega arith
Flag-le sampling f h = h
Flag-le checking f h = h
Flag-le resetting f h = h

Flag-set : (pc : Main) (f : ℕ) → Flag pc f → Flag pc 1
Flag-set loading f h = refl
Flag-set (exchanging e) f h = (h.0, refl)
Flag-set sampling f h = omega arith
Flag-set checking f h = omega arith
Flag-set resetting f h = omega arith

served_cases : (pc : Main) (f : ℕ) → Flag pc f → 1 ≤ f + under_way pc → (f ≡ 1) ⊎ (pc ≡ resetting)
served_cases resetting f h le = inr refl
served_cases loading f h le = inl h
served_cases (exchanging e) f h le = inl h.1
served_cases sampling f h le = inl (omega arith)
served_cases checking f h le = inl (omega arith)

module _ {D : Type 0} where
  set_flag-IsValid : (i e : ℕ) (s : System D) → IsValid s → IsValid (set_flag i e s)
  unfolding set_flag become
  set_flag-IsValid i e s v = elim (Bool-cases (s.reset == e)) [
    | inl equal ↦ rw equal (record {
      flag = Flag-set s.main s.reset v.flag;
      served = λ _. omega arith;
      counted = omega (arith, v.counted, Flag-le s.main s.reset v.flag);
    })
    | inr other ↦ rw other (record { flag = v.flag; served = v.served; counted = v.counted })
  ]

  become-IsValid : (i : ℕ) (pc : Handler D) (s : System D) → IsValid s → IsValid (become i pc s)
  unfolding become
  become-IsValid i pc s v = record { flag = v.flag; served = v.served; counted = v.counted }

  serve-IsValid :
      (i : ℕ) (type : Option OpType) (value : D) (s : System D)
      → IsValid s
      → IsValid (serve i type value s)
  unfolding serve
  serve-IsValid i none value s v = become-IsValid i _ s v
  serve-IsValid i (some op_reset) value s v = become-IsValid i _ s v
  serve-IsValid i (some op_tare) value s v =
      become-IsValid i _ (record s { tare = value })
        (record { flag = v.flag; served = v.served; counted = v.counted })
  serve-IsValid i (some op_ack) value s v = become-IsValid i _ s v

  handled-IsValid :
      (i : ℕ) (pc : Handler D) (s : System D)
      → IsValid s
      → IsValid (handle_auxillary_command i pc s)
  unfolding handle_auxillary_command
  handled-IsValid i absent s v = v
  handled-IsValid i (serving msg) s v = serve-IsValid i msg.type_ msg.value s v
  handled-IsValid i load_reset s v = become-IsValid i _ s v
  handled-IsValid i (exchange_reset e) s v = set_flag-IsValid i e s v
  handled-IsValid i acknowledging s v = become-IsValid i _ s v
  handled-IsValid i (finished a) s v = v

  -- The main loop's compare-and-exchange never fails.
  clear_flag-IsValid :
      (e : ℕ) (s : System D) → IsValid (record s { main = exchanging e }) → IsValid (clear_flag e s)
  unfolding clear_flag
  clear_flag-IsValid e s v =
      let flag : (e ≡ 1) × (s.reset ≡ 1) = v.flag in
      let counted : resets s.log + s.reset + 0 ≤ requests s.log = v.counted in
      let equal : (s.reset == e) ≡ true = ground arith in
      rw equal (record { flag = omega arith; served = λ _. omega arith; counted = omega arith })

module _ {D : Type 0} ⦃d : Double D⦄ (m b : D) where
  worked-IsValid :
      (t : Tick D) (pc : Main) (s : System D)
      → IsValid (record s { main = pc })
      → IsValid (main_step m b t pc s)
  unfolding main_step
  worked-IsValid t sampling s v = record { flag = v.flag; served = v.served; counted = v.counted }
  worked-IsValid t checking s v = elim (Bool-cases (s.reset == 0)) [
    | inl clear ↦ rw clear (record { flag = v.flag; served = v.served; counted = v.counted })
    | inr up ↦
        rw up (record { flag = ground (arith, v.flag); served = v.served; counted = v.counted })
  ]
  worked-IsValid t loading s v = record {
    flag = (v.flag, v.flag);
    served = v.served;
    counted = v.counted;
  }
  worked-IsValid t (exchanging e) s v = clear_flag-IsValid e s v
  worked-IsValid t resetting s v = record {
    flag = v.flag;
    served = λ e. ground arith;
    counted = omega (arith, v.counted);
  }

  -- Every step keeps the invariant.
  pub Step-IsValid : {s u : System D} → Step D m b s u → IsValid s → IsValid u
  Step-IsValid (accepted i msg s free) v = become-IsValid i _ s v
  Step-IsValid (handled i s) v = handled-IsValid i (s.handlers i) s v
  Step-IsValid (worked t s) v = worked-IsValid t s.main s v

  pub launched-IsValid : (l : Loop) → IsValid {D = D} (launched l)
  unfolding launched
  launched-IsValid l = record {
    flag = omega arith;
    served = λ e. ground arith;
    counted = omega arith;
  }

  pub Run-IsValid : {s u : System D} → Run D m b s u → IsValid s → IsValid u
  Run-IsValid here v = v
  Run-IsValid (then_ r step) v = Step-IsValid step (Run-IsValid r v)

  -- In every interleaving of the threads with the main loop: if a reset was requested behind the last
  -- call of `reset_adc`, the flag is up or the main loop is about to call it; and it is never called
  -- more often than it was requested.
  pub Run-served :
      (l : Loop) {u : System D}
      → Run D m b (launched l) u
      → (unserved u.log ≡ true → (u.reset ≡ 1) ⊎ (u.main ≡ resetting))
        × (resets u.log ≤ requests u.log)
  Run-served l {u} r =
      let v : IsValid u = Run-IsValid r (launched-IsValid l) in
      (λ e. served_cases u.main u.reset v.flag (v.served e), omega (arith, v.counted))
