-- ===== src/Auxiliary/Sampling.antt =====
-- The threads of src/load_cell_serv.c do not disturb the sampling: in every interleaving the packets are
-- those of the main loop on its own.
use motor_stand.Prelude.{
  ℕ, ◌<◌, ◌≡◌, refl, sym, ap, ◌∙◌, inl, inr, Option, none, some, List, [], ◌∷◌, ◌++◌, ◌==◌,
  Bool-cases, All, append-nil,
}
use motor_stand.Double.{Double}
use motor_stand.LoadCell.{batch_size, OutputMinimal}
use motor_stand.Server.{Tick, Loop, round, main_loop, start}
use motor_stand.Server.Stream.{
  payload, received, IsFull, samples, main_loop-nil, main_loop-snoc, main_loop-stream,
}
use motor_stand.Auxiliary.{
  OpType, op_reset, op_tare, op_ack, Handler, absent, load_reset, acknowledging, serving,
  exchange_reset, finished, Main, sampling, checking, loading, resetting, exchanging, System,
  become, serve, set_flag, handle_auxillary_command, clear_flag, main_step, accepted, handled,
  worked, Run, here, then_, launched,
}

module _ {D : Type 0} where
  serve-loop :
      (i : ℕ) (type : Option OpType) (value : D) (s : System D)
      → (serve i type value s).loop ≡ s.loop
  unfolding serve become
  serve-loop i none value s = refl
  serve-loop i (some op_reset) value s = refl
  serve-loop i (some op_tare) value s = refl
  serve-loop i (some op_ack) value s = refl

  set_flag-loop : (i e : ℕ) (s : System D) → (set_flag i e s).loop ≡ s.loop
  unfolding set_flag become
  set_flag-loop i e s = elim (Bool-cases (s.reset == e)) [ inl q ↦ rw q refl | inr q ↦ rw q refl ]

  handled-loop :
      (i : ℕ) (pc : Handler D) (s : System D) → (handle_auxillary_command i pc s).loop ≡ s.loop
  unfolding handle_auxillary_command become
  handled-loop i absent s = refl
  handled-loop i (serving msg) s = serve-loop i msg.type_ msg.value s
  handled-loop i load_reset s = refl
  handled-loop i (exchange_reset e) s = set_flag-loop i e s
  handled-loop i acknowledging s = refl
  handled-loop i (finished a) s = refl

  clear_flag-loop : (e : ℕ) (s : System D) → (clear_flag e s).loop ≡ s.loop
  unfolding clear_flag
  clear_flag-loop e s = elim (Bool-cases (s.reset == e)) [ inl q ↦ rw q refl | inr q ↦ rw q refl ]

module _ {D : Type 0} ⦃d : Double D⦄ (m b : D) where
  -- What a step of the main loop samples, with the shared tare that it read.
  abbrev pub sampled : Main → Tick D → D → List (Tick D)
  sampled sampling t tare = record t { tare = tare } ∷ []
  sampled checking t tare = []
  sampled loading t tare = []
  sampled (exchanging e) t tare = []
  sampled resetting t tare = []

  -- The rounds of a run, in order.
  abbrev pub rounds : {s u : System D} → Run D m b s u → List (Tick D)
  rounds here = []
  rounds (then_ r (accepted i msg s free)) = rounds r
  rounds (then_ r (handled i s)) = rounds r
  rounds (then_ r (worked t s)) = rounds r ++ sampled s.main t s.tare

  worked-loop :
      (t : Tick D) (pc : Main) (s : System D) (l : Loop) (ts : List (Tick D))
      → s.loop ≡ main_loop m b l ts
      → (main_step m b t pc s).loop ≡ main_loop m b l (ts ++ sampled pc t s.tare)
  unfolding main_step
  worked-loop t sampling s l ts e =
      let read = record t { tare = s.tare } in
      ap (λ l. round m b l read) e ∙ sym (main_loop-snoc m b l ts read)
  worked-loop t checking s l ts e = rw (append-nil ts) e
  worked-loop t loading s l ts e = rw (append-nil ts) e
  worked-loop t (exchanging x) s l ts e = rw (append-nil ts) (clear_flag-loop x s ∙ e)
  worked-loop t resetting s l ts e = rw (append-nil ts) e

  Run-loop : {s u : System D} (r : Run D m b s u) → u.loop ≡ main_loop m b s.loop (rounds r)
  unfolding become
  Run-loop {s} here = sym (main_loop-nil m b s.loop)
  Run-loop (then_ r (accepted i msg s free)) = Run-loop r
  Run-loop (then_ r (handled i s)) = handled-loop i (s.handlers i) s ∙ Run-loop r
  Run-loop {s = s₀} (then_ r (worked t s)) = worked-loop t s.main s s₀.loop (rounds r) (Run-loop r)

  -- Whatever commands are handled meanwhile, the packets of a run and the batch that is being filled hold
  -- the samples of its rounds so far, in order, in full packets.
  pub Run-stream :
      (file : Option (List OutputMinimal)) {u : System D} (r : Run D m b (launched (start file)) u)
      → (received u.loop.outbox.sent ++ payload u.loop.outbox.batch ≡ samples m b (rounds r))
        × All IsFull u.loop.outbox.sent
        × (u.loop.outbox.batch.count < batch_size)
  unfolding launched
  Run-stream file {u} r =
      let e = Run-loop r in
      let (stream, full, counted, room) = main_loop-stream m b (rounds r) file in
      (ap (λ l. received l.outbox.sent ++ payload l.outbox.batch) e ∙ stream, rw e full, rw e room)
