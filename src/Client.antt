-- ===== src/Client.antt =====
-- The client library, src/load_cell_cli.c: how a client is started, and the loop that hands each
-- packet to its callback. What the system calls answer is a parameter.
pub mod Delivery
mod Tests
use motor_stand.Prelude.{
  ℕ, Option, none, some, List, [], ◌∷◌, Bool, true, false, if◌then◌else◌, ◌==◌,
}
use motor_stand.Prelude.Int.{ℤ, negsuc, eq_ℤ, pos}
use motor_stand.LoadCell.{OutputBatch}

-- `lc_cli_opt`; the argument is an int, and may be neither.
pub data LcCliOpt : Type 0 where
  lc_cli_detach lc_cli_nodetach unknown_behavior : LcCliOpt

-- How one call of `recvfrom` ends. Its result is not looked at.
pub data Receive : Type 0 where
  datagram : OutputBatch → Receive
  failed : Receive

-- Whether `socket`, `setsockopt` and `bind` answer -1.
pub record SocketCalls : Type 0 where
  pub socket : ℤ
  pub set_reuseport : ℤ
  pub bind : ℤ

-- Where the set-up of a socket stops.
pub data SetUp : Type 0 where
  no_socket no_option no_bind bound : SetUp

abbrev pub error : ℤ
error = negsuc 0

abbrev pub set_up_socket : SocketCalls → SetUp
set_up_socket c =
    if eq_ℤ c.socket error
    then no_socket
    else if eq_ℤ c.set_reuseport error
    then no_option
    else if eq_ℤ c.bind error
    then no_bind
    else bound

-- The callback is a step on the client's state; `none` is a fault in it.
module _ {ℓ} {S : Type ℓ} (callback : OutputBatch → S → Option S) where
  -- The rounds of the loop so far, with the local variable `message`.
  pub receive_loop : OutputBatch → S → List Receive → Option S
  receive_loop message s [] = some s
  receive_loop message s (datagram b ∷ rs) = elim (callback b s) [
    | none ↦ none
    | some s' ↦ receive_loop b s' rs
  ]
  receive_loop message s (failed ∷ rs) = elim (callback message s) [
    | none ↦ none
    | some s' ↦ receive_loop message s' rs
  ]

  -- The worker: it returns at once if the socket cannot be set up, and else never.
  pub worker : SocketCalls → OutputBatch → S → List Receive → Option S
  worker c message s rs = elim (set_up_socket c) [ bound ↦ receive_loop message s rs | _ ↦ some s ]

-- What `run_load_cell_cli` does: start a thread and return its id, run the worker itself, or fail.
pub data Started : Type 0 where
  thread : ℕ → Started
  in_place : Started
  run_failure : Started

-- `create` is what `pthread_create` answers, `id` the id that it stores.
pub run_load_cell_cli : LcCliOpt → ℤ → ℕ → Started
run_load_cell_cli lc_cli_detach create id = if eq_ℤ create (pos 0) then thread id else run_failure
run_load_cell_cli lc_cli_nodetach create id = in_place
run_load_cell_cli unknown_behavior create id = run_failure
