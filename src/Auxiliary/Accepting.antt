-- ===== src/Auxiliary/Accepting.antt =====
-- run_auxillary_server of src/load_cell_serv.c: the socket of the server for commands, and the thread that
-- it starts for each call of accept.
use motor_stand.Prelude.{List, [], ◌∷◌, ◌++◌, if◌then◌else◌}
use motor_stand.Prelude.Int.{ℤ, negsuc, eq_ℤ}

-- What `socket`, `bind` and `listen` answer.
pub record ListenCalls : Type 0 where
  pub socket : ℤ
  pub bind : ℤ
  pub listen : ℤ

-- Where the thread is: it has returned at a call, or is in its loop, with the descriptors that it gave to
-- handlers, in order.
pub data Listener : Type 0 where
  no_socket no_bind no_listen : Listener
  listening : List ℤ → Listener

-- The loop, for the answers of accept so far: none of them is looked at.
pub accept_loop : List ℤ → List ℤ → List ℤ
accept_loop handlers [] = handlers
accept_loop handlers (fd ∷ answers) = accept_loop (handlers ++ fd ∷ []) answers

pub run_auxillary_server : ListenCalls → List ℤ → Listener
run_auxillary_server calls answers =
    if eq_ℤ calls.socket (negsuc 0)
    then no_socket
    else if eq_ℤ calls.bind (negsuc 0)
    then no_bind
    else if eq_ℤ calls.listen (negsuc 0)
    then no_listen
    else listening (accept_loop [] answers)
