-- ===== src/Actor.antt =====
-- src/load_cell_actor.c in the build with FAST_AS_POSSIBLE: the commands that it sends to the server and
-- what it makes of the answer. The answers of the system calls are parameters; `Commands` has the command
-- line and what is printed.
pub mod Answers
pub mod Commands
mod Tests
use motor_stand.Prelude.{
  ℕ, Bool, Option, none, some, List, [], ◌∷◌, not, if◌then◌else◌, ◌==◌, get_or, length,
}
use motor_stand.Prelude.Text.{codes, eq_text}
use motor_stand.Double.{Double}
use motor_stand.LoadCell.{OutputBatch}
use motor_stand.Auxiliary.{OpType, op_reset, op_tare, op_ack, Message}

-- `struct average_data`
pub record AverageData (D : Type 0) : Type 0 where
  pub value : D
  pub value_tare : D
  pub sum : D
  pub sum_tare : D
  pub count : ℕ

-- What `write` or `read` answers: -1 with EINTR, -1 with another error, or what it did.
pub data Io (A : Type 0) : Type 0 where
  interrupted failed : Io A
  did : A → Io A

-- What `read` brings: a message, or the end of the connection.
pub data Incoming (D : Type 0) : Type 0 where
  closed : Incoming D
  arrived : Message D → Incoming D

-- The answers of the socket calls of `send_server_message`.
pub record Connection (D : Type 0) : Type 0 where
  pub socket : Bool
  pub bind : Bool
  pub connect : Bool
  pub writes : List (Io (Unit {0}))
  pub reads : List (Io (Incoming D))

-- The loops `do ... while (res == -1 && errno == EINTR)`; still in the loop if the answers end.
pub data Retried (A : Type 0) : Type 0 where
  waiting gave_up : Retried A
  got : A → Retried A

pub retry : {A : Type 0} → List (Io A) → Retried A
retry [] = waiting
retry (interrupted ∷ answers) = retry answers
retry (failed ∷ answers) = gave_up
retry (did a ∷ answers) = got a

-- The result of `send_server_message`: still in a call, 0, or 1.
pub data Sent : Type 0 where
  pending refused accepted : Sent

-- `msg.type != OP_ACK`
abbrev pub by_type : Option OpType → Sent
by_type none = refused
by_type (some op_reset) = refused
by_type (some op_tare) = refused
by_type (some op_ack) = accepted

module _ {D : Type 0} where
  -- The message after the read: at the end of the connection it is the one that was sent.
  abbrev pub message_after : Message D → Incoming D → Message D
  message_after sent closed = sent
  message_after sent (arrived msg) = msg

  pub read_answer : Message D → Retried (Incoming D) → Sent
  read_answer sent waiting = pending
  read_answer sent gave_up = refused
  read_answer sent (got incoming) = by_type (message_after sent incoming).type_

  pub write_then_read : Message D → Retried (Unit {0}) → List (Io (Incoming D)) → Sent
  write_then_read sent waiting reads = pending
  write_then_read sent gave_up reads = refused
  write_then_read sent (got _) reads = read_answer sent (retry reads)

  pub send_server_message : OpType → D → Connection D → Sent
  send_server_message op value c =
      let msg : Message D = record { value = value; type_ = some op } in
      if not c.socket
      then refused
      else if not c.bind
      then refused
      else if not c.connect
      then refused
      else write_then_read msg (retry c.writes) c.reads

module _ {D : Type 0} ⦃d : Double D⦄ where
  pub reset_average : AverageData D → AverageData D
  reset_average avg = record {
    value = d.nought;
    value_tare = d.nought;
    sum = d.nought;
    sum_tare = d.nought;
    count = 0;
  }

  -- Batches leave the average as it is.
  pub write_callback : OutputBatch → AverageData D → AverageData D
  write_callback batch avg = avg

  pub write_callbacks : List OutputBatch → AverageData D → AverageData D
  write_callbacks [] avg = avg
  write_callbacks (batch ∷ batches) avg = write_callbacks batches (write_callback batch avg)

  -- The operation and the value of the message that `main` sends, if any; for "tare" the batches are those
  -- that arrive during its sleep.
  pub request : List (List ℕ) → List OutputBatch → AverageData D → Option (OpType × D)
  request argv batches avg =
      let command = get_or argv 1 [] in
      if not (length argv == 2)
      then none
      else if eq_text command (codes "ping")
      then some (op_ack, d.nought)
      else if eq_text command (codes "reset")
      then some (op_reset, d.nought)
      else if eq_text command (codes "tare")
      then some (op_tare, (write_callbacks batches (reset_average avg)).value)
      else none
