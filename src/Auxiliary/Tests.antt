-- ===== src/Auxiliary/Tests.antt =====
-- A reset that is requested while the main loop takes a sample.
use motor_stand.Prelude.{◌≤◌, ◌≡◌, refl, ◌⊎◌, true, false, [], ◌++◌, ◌<◌, All, ◌∷◌, none, some}
use motor_stand.Prelude.Int.{ℤ, pos}
use motor_stand.Integers.{whole_numbers}
use motor_stand.LoadCell.{batch_size}
use motor_stand.Server.Stream.{payload, received, IsFull, samples}
use motor_stand.Auxiliary.Serving.{work, Run-answered}
use motor_stand.Auxiliary.Sampling.{rounds, Run-stream}
use motor_stand.Server.{Tick, Loop, start}
use motor_stand.Auxiliary.{
  Message, op_reset, resetting, System, accepted, handled, worked, Run, here, then_, launched,
  handle_auxillary_command, main_step, become, serve, set_flag,
}
use motor_stand.Auxiliary.Interleaving.{requests, resets, unserved, Run-served}

abbrev tick : Tick ℤ
tick = record { next_raw = pos 7; tv_sec = 3; tv_nsec = 500; tare = pos 0 }

abbrev ask : Message ℤ
ask = record { value = pos 0; type_ = some op_reset }

abbrev first_loop : Loop
first_loop = start none

abbrev before : System ℤ
before = launched first_loop

abbrev requested_run : (u : System ℤ) × Run ℤ (pos 1) (pos 0) before u
unfolding launched
requested_run = (
  _,
  then_
      (then_ (then_ (then_ (then_ here (accepted 4 ask _ refl)) (handled 4 _)) (worked tick _))
        (handled 4 _))
      (handled 4 _),
)

Run-served_example :
    let u = requested_run.0 in
    (unserved u.log ≡ true → (u.reset ≡ 1) ⊎ (u.main ≡ resetting)) × (resets u.log ≤ requests u.log)
Run-served_example = Run-served (pos 1) (pos 0) first_loop requested_run.1

Run-answered_example :
    unserved (work (pos 1) (pos 0) (tick ∷ tick ∷ tick ∷ tick ∷ tick ∷ []) requested_run.0).log
    ≡ false
Run-answered_example =
    Run-answered (pos 1) (pos 0) tick tick tick tick tick first_loop requested_run.1

Run-stream_example :
    (received requested_run.0.loop.outbox.sent ++ payload requested_run.0.loop.outbox.batch
      ≡ samples (pos 1) (pos 0) (rounds (pos 1) (pos 0) requested_run.1))
    × All IsFull requested_run.0.loop.outbox.sent
    × (requested_run.0.loop.outbox.batch.count < batch_size)
Run-stream_example = Run-stream (pos 1) (pos 0) none requested_run.1

-- The request is in the log, so that the example is about a flag that is up.
request_waits : unserved requested_run.0.log ≡ true
unfolding launched handle_auxillary_command main_step become serve set_flag
request_waits = refl
