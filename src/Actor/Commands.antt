-- ===== src/Actor/Commands.antt =====
-- The address of the server and what `main` of src/load_cell_actor.c prints, in the build with
-- FAST_AS_POSSIBLE.
pub mod Report
use motor_stand.Prelude.{
  ℕ, Bool, Option, none, some, List, [], ◌∷◌, ◌++◌, not, ◌&&◌, if◌then◌else◌, ◌==◌, get_or, length,
}
use motor_stand.Prelude.Text.{codes, eq_text}
use motor_stand.Double.{Double}
use motor_stand.LoadCell.{OutputBatch}
use motor_stand.Auxiliary.{op_reset, op_tare, op_ack}
use motor_stand.Actor.{
  AverageData, Connection, Sent, pending, refused, accepted, send_server_message, reset_average,
  write_callbacks,
}

-- `struct sockaddr_in`
pub record SocketAddress : Type 0 where
  pub host : ℕ
  pub port : ℕ

-- The answers of the calls of get_server_address: whether `socket`, `setsockopt` and `bind` succeed, and
-- the sender that `recvfrom` stores, if it receives anything.
pub record AddressCalls : Type 0 where
  pub socket : Bool
  pub reuseport : Bool
  pub bind : Bool
  pub sender : Option SocketAddress

abbrev pub stored : Option SocketAddress → SocketAddress → SocketAddress
stored none servaddr = servaddr
stored (some sender) servaddr = sender

-- `get_server_address`: what `servaddr` holds behind it; it is not initialised before. `aux_port` is
-- AUX_PORT.
pub get_server_address : ℕ → AddressCalls → SocketAddress → SocketAddress
get_server_address aux_port calls servaddr =
    if calls.socket && calls.reuseport && calls.bind
    then record (stored calls.sender servaddr) { port = aux_port }
    else servaddr

-- The line behind an `if (send_server_message(...))`; none while it waits.
abbrev pub outcome : Sent → List (List ℕ) → List (List ℕ) → List (List ℕ)
outcome pending success failure = []
outcome refused success failure = failure
outcome accepted success failure = success

module _ {D : Type 0} ⦃d : Double D⦄ where
  abbrev pub average_line : D → List ℕ
  average_line value = codes "prior average: " ++ d.show_lf value

  -- The lines of the command "tare"; the batches are those that arrive during the two sleeps.
  pub tare_lines :
      List OutputBatch → List OutputBatch → Connection D → AverageData D → List (List ℕ)
  tare_lines before after c avg =
      let collected = write_callbacks before (reset_average avg) in
      let again = write_callbacks after (reset_average collected) in
      codes "collecting prior average"
      ∷ average_line collected.value
      ∷ codes "performing tare"
      ∷ outcome (send_server_message op_tare collected.value c)
          (codes "tare succeeded" ∷ codes "collecting post average" ∷ average_line again.value ∷ [])
          (codes "tare failed" ∷ [])

  -- The lines that `main` prints.
  pub actor_main :
      List (List ℕ)
      → List OutputBatch
      → List OutputBatch
      → Connection D
      → AverageData D
      → List (List ℕ)
  actor_main argv before after c avg =
      let command = get_or argv 1 [] in
      if not (length argv == 2)
      then codes "usage:" ∷ (get_or argv 0 [] ++ codes " [ ping | reset | tare ]") ∷ []
      else if eq_text command (codes "ping")
      then codes "ping"
        ∷ outcome (send_server_message op_ack d.nought c) (codes "pong" ∷ [])
            (codes "ping failed" ∷ [])
      else if eq_text command (codes "reset")
      then codes "resetting..."
        ∷ outcome (send_server_message op_reset d.nought c) (codes "reset succeeded" ∷ [])
            (codes "reset failed" ∷ [])
      else if eq_text command (codes "tare")
      then tare_lines before after c avg
      else []
