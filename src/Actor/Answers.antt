-- ===== src/Actor/Answers.antt =====
-- What src/load_cell_actor.c takes for success, and what its tare sends.
use motor_stand.Prelude.{
  ◌≡◌, refl, ◌↔◌, inl, inr, true, ℕ, zero, suc, replicate, ◌++◌, ap, ◌∙◌, Option, some, none, List,
  [], ◌∷◌, Bool-cases, arith,
}
use motor_stand.Double.{Double}
use motor_stand.LoadCell.{OutputBatch}
use motor_stand.Auxiliary.{OpType, op_reset, op_tare, op_ack, Message}
use motor_stand.Actor.{
  AverageData, Io, interrupted, failed, did, Incoming, closed, arrived, Connection, Retried,
  waiting, gave_up, got, retry, accepted, by_type, read_answer, write_then_read,
  send_server_message, reset_average, write_callback, write_callbacks, request,
}

-- What the first call that is not interrupted does, if it does not fail: some interrupted calls, and
-- then this one.
abbrev pub Completes : {A : Type 0} → List (Io A) → A → Type 0
Completes {A} answers a =
    (n : ℕ) × (later : List (Io A)) × (answers ≡ replicate n interrupted ++ did a ∷ later)

-- A message that counts as an answer: an acknowledgement, or the end of the connection after a ping.
abbrev pub Answers : {D : Type 0} → OpType → Incoming D → Type 0
Answers op closed = op ≡ op_ack
Answers op (arrived msg) = msg.type_ ≡ some op_ack

-- The socket is set up and connected, and the first write and read that are not interrupted succeed, the
-- read with such a message.
pub record IsAnswered (D : Type 0) (op : OpType) (c : Connection D) : Type 0 where
  pub socket : c.socket ≡ true
  pub bind : c.bind ≡ true
  pub connect : c.connect ≡ true
  pub written : Completes c.writes tt
  pub incoming : Incoming D
  pub read : Completes c.reads incoming
  pub answers : Answers op incoming

retry-there :
    {A : Type 0} (answers : List (Io A)) (a : A) → retry answers ≡ got a → Completes answers a
unfolding retry
retry-there [] a e = ground arith
retry-there (interrupted ∷ answers) a e =
    let (n, later, same) = retry-there answers a e in (suc n, later, ap (λ t. interrupted ∷ t) same)
retry-there (failed ∷ answers) a e = ground arith
retry-there (did b ∷ answers) a e =
    let same : b ≡ a = ground arith in (0, answers, ap (λ t. did t ∷ answers) same)

retry-first :
    {A : Type 0} (n : ℕ) (later : List (Io A)) (a : A)
    → retry (replicate n interrupted ++ did a ∷ later) ≡ got a
unfolding retry
retry-first zero later a = refl
retry-first (suc n) later a = retry-first n later a

retry-Completes :
    {A : Type 0} (answers : List (Io A)) (a : A) → (retry answers ≡ got a) ↔ Completes answers a
retry-Completes answers a = (retry-there answers a, λ c. ap retry c.2 ∙ retry-first c.0 c.1 a)

by_type_iff : (t : Option OpType) → (by_type t ≡ accepted) ↔ (t ≡ some op_ack)
by_type_iff none = ground arith
by_type_iff (some op_reset) = ground arith
by_type_iff (some op_tare) = ground arith
by_type_iff (some op_ack) = ground arith

own_type_iff : (t : OpType) → (by_type (some t) ≡ accepted) ↔ (t ≡ op_ack)
own_type_iff op_reset = ground arith
own_type_iff op_tare = ground arith
own_type_iff op_ack = ground arith

module _ {D : Type 0} (op : OpType) (value : D) where
  abbrev message : Message D
  message = record { value = value; type_ = some op }

  read_answer_iff :
      (r : Retried (Incoming D))
      → (read_answer message r ≡ accepted)
        ↔ ((incoming : Incoming D) × (r ≡ got incoming) × Answers op incoming)
  unfolding read_answer
  read_answer_iff waiting = (λ e. ground arith, λ a. ground arith)
  read_answer_iff gave_up = (λ e. ground arith, λ a. ground arith)
  read_answer_iff (got closed) =
      let (there, back) = own_type_iff op in
      (
        λ e. (closed, refl, there e),
        λ a. let same : a.0 ≡ closed = ground arith in back (rw same at a.2),
      )
  read_answer_iff (got (arrived msg)) =
      let (there, back) = by_type_iff msg.type_ in
      (
        λ e. (arrived msg, refl, there e),
        λ a. let same : a.0 ≡ arrived msg = ground arith in back (rw same at a.2),
      )

  write_then_read_iff :
      (w : Retried (Unit {0})) (reads : List (Io (Incoming D)))
      → (write_then_read message w reads ≡ accepted) ↔ (
          (w ≡ got tt)
          × (incoming : Incoming D) × (retry reads ≡ got incoming)
          × Answers op incoming)
  unfolding write_then_read
  write_then_read_iff waiting reads = (λ e. ground arith, λ a. ground arith)
  write_then_read_iff gave_up reads = (λ e. ground arith, λ a. ground arith)
  write_then_read_iff (got u) reads =
      let (there, back) = read_answer_iff (retry reads) in
      (
        λ e. let (incoming, came, answers) = there e in (refl, incoming, came, answers),
        λ a. back (a.1, a.2, a.3),
      )

  -- A command counts as successful exactly if the socket is set up and connected, the first write that
  -- is not interrupted succeeds, and the first read that is not interrupted brings an acknowledgement or,
  -- for a ping, the end of the connection; a write or read that fails otherwise is not repeated.
  pub send_server_message_iff :
      (c : Connection D) → (send_server_message op value c ≡ accepted) ↔ IsAnswered D op c
  unfolding send_server_message
  send_server_message_iff c =
      let (there, back) = write_then_read_iff (retry c.writes) c.reads in
      elim (Bool-cases c.socket) [
        | inr bad ↦ rw bad (λ e. ground arith, λ a. let e = a.socket in ground arith)
        | inl socket ↦ elim (Bool-cases c.bind) [
          | inr bad ↦ rw (socket, bad) (λ e. ground arith, λ a. let e = a.bind in ground arith)
          | inl bind ↦ elim (Bool-cases c.connect) [
            | inr bad ↦
                rw (socket, bind, bad) (λ e. ground arith, λ a. let e = a.connect in ground arith)
            | inl connect ↦
                rw (socket, bind, connect)
                  (
                    λ e.
                        let (wrote, incoming, came, answers) = there e in
                        record {
                          socket = refl;
                          bind = refl;
                          connect = refl;
                          written = (retry-Completes c.writes tt).0 wrote;
                          incoming = incoming;
                          read = (retry-Completes c.reads incoming).0 came;
                          answers = answers;
                        },
                    λ a. back (
                      (retry-Completes c.writes tt).1 a.written,
                      a.incoming,
                      (retry-Completes c.reads a.incoming).1 a.read,
                      a.answers,
                    ),
                  )
          ]
        ]
      ]

module _ {D : Type 0} ⦃d : Double D⦄ where
  unchanged : (batches : List OutputBatch) (avg : AverageData D) → write_callbacks batches avg ≡ avg
  unfolding write_callbacks write_callback
  unchanged [] avg = refl
  unchanged (batch ∷ batches) avg = unchanged batches avg

  -- Whatever batches arrive, the tare command sends the value zero.
  pub request-tare :
      (argv : List (List ℕ)) (batches : List OutputBatch) (avg : AverageData D) (value : D)
      → request argv batches avg ≡ some (op_tare, value)
      → value ≡ d.nought
  unfolding request reset_average
  request-tare argv batches avg value e =
      let zero_average = unchanged batches (reset_average avg) in ground (arith, zero_average)
