-- ===== src/Auxiliary.antt =====
-- The commands of src/load_cell_serv.c and src/load_cell.h: the threads that handle a request and the
-- main loop share the tare and the reset flag. A step is one access to a shared variable; the steps of
-- the threads may come in any order. `Accepting` has the socket and the start of the threads.
pub mod Interleaving
pub mod Accepting
pub mod Sampling
pub mod Serving
mod Tests
use motor_stand.Prelude.{
  ℕ, ◌≡◌, Bool, true, false, Option, none, some, List, [], ◌∷◌, if◌then◌else◌, ◌==◌,
}
use motor_stand.Double.{Double}
use motor_stand.Server.{Tick, Loop, round}

-- `auxillary_op_type`
pub data OpType : Type 0 where
  op_reset op_tare op_ack : OpType

-- `struct auxillary_server_msg`; the type is `none` for any other value, as for the -1 that it keeps if
-- nothing is read.
pub record Message (D : Type 0) : Type 0 where
  pub value : D
  pub type_ : Option OpType

-- Where a thread in `handle_auxillary_command` is: before the switch, at the two accesses of its loop,
-- before the answer, or finished, with an answer or without.
pub data Handler (D : Type 0) : Type 0 where
  absent load_reset acknowledging : Handler D
  serving : Message D → Handler D
  exchange_reset : ℕ → Handler D
  finished : Bool → Handler D

-- Where the main loop is: before a sample, at `if (atomic_load(&reset))`, at the two accesses of its
-- loop, or before `reset_adc`.
pub data Main : Type 0 where
  sampling checking loading resetting : Main
  exchanging : ℕ → Main

-- What happened, the latest first: a thread set the flag, or the main loop called `reset_adc`.
pub data Event : Type 0 where
  requested was_reset : Event

pub record System (D : Type 0) : Type 0 where
  pub reset : ℕ
  pub tare : D
  pub handlers : ℕ → Handler D
  pub main : Main
  pub loop : Loop
  pub log : List Event

module _ {D : Type 0} where
  pub become : ℕ → Handler D → System D → System D
  become i pc s = record s { handlers = λ j. if i == j then pc else s.handlers j }

  -- The switch of `handle_auxillary_command`.
  pub serve : ℕ → Option OpType → D → System D → System D
  serve i none value s = become i (finished false) s
  serve i (some op_reset) value s = become i load_reset s
  serve i (some op_tare) value s = become i acknowledging (record s { tare = value })
  serve i (some op_ack) value s = become i acknowledging s

  -- `atomic_compare_exchange_strong(handler->data.reset,&expected,1)`
  pub set_flag : ℕ → ℕ → System D → System D
  set_flag i expected s =
      if s.reset == expected
      then become i acknowledging (record s { reset = 1; log = requested ∷ s.log })
      else become i load_reset s

  -- A step of the thread `i`.
  pub handle_auxillary_command : ℕ → Handler D → System D → System D
  handle_auxillary_command i absent s = s
  handle_auxillary_command i (serving msg) s = serve i msg.type_ msg.value s
  handle_auxillary_command i load_reset s = become i (exchange_reset s.reset) s
  handle_auxillary_command i (exchange_reset expected) s = set_flag i expected s
  handle_auxillary_command i acknowledging s = become i (finished true) s
  handle_auxillary_command i (finished answered) s = s

  -- `atomic_compare_exchange_strong(&reset,&expected,0)`
  pub clear_flag : ℕ → System D → System D
  clear_flag expected s =
      if s.reset == expected
      then record s { reset = 0; main = resetting }
      else record s { main = loading }

module _ {D : Type 0} ⦃d : Double D⦄ (m b : D) where
  -- A step of the main loop; the tick has the answers of the ADC and of the clock, and the shared tare
  -- is read here.
  pub main_step : Tick D → Main → System D → System D
  main_step t sampling s = record s {
    loop = round m b s.loop (record t { tare = s.tare });
    main = checking;
  }
  main_step t checking s = record s { main = if s.reset == 0 then sampling else loading }
  main_step t loading s = record s { main = exchanging s.reset }
  main_step t (exchanging expected) s = clear_flag expected s
  main_step t resetting s = record s { main = sampling; log = was_reset ∷ s.log }

-- The steps: a connection is accepted, a thread moves, the main loop moves.
pub data Step (D : Type 0) ⦃d : Double D⦄ (m b : D) : System D → System D → Type 0 where
  accepted :
      (i : ℕ) (msg : Message D) (s : System D)
      → s.handlers i ≡ absent
      → Step D m b s (become i (serving msg) s)
  handled : (i : ℕ) (s : System D) → Step D m b s (handle_auxillary_command i (s.handlers i) s)
  worked : (t : Tick D) (s : System D) → Step D m b s (main_step m b t s.main s)

-- The runs, the latest step last.
pub data Run (D : Type 0) ⦃d : Double D⦄ (m b : D) (s : System D) : System D → Type 0 where
  here : Run D m b s s
  then_ : {t u : System D} → Run D m b s t → Step D m b t u → Run D m b s u

-- The state before the main loop.
pub launched : {D : Type 0} ⦃d : Double D⦄ → Loop → System D
launched ⦃d = d⦄ l = record {
  reset = 0;
  tare = d.nought;
  handlers = λ i. absent;
  main = sampling;
  loop = l;
  log = [];
}
