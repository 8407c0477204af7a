-- ===== src/Client/Tests.antt =====
-- A client at concrete inputs.
use motor_stand.Prelude.{
  ℕ, ◌≡◌, refl, some, none, List, [], ◌∷◌, ◌++◌, ◌<◌, replicate, length-replicate,
}
use motor_stand.Prelude.Int.{ℤ, pos, negsuc}
use motor_stand.Prelude.Text.{codes}
use motor_stand.Integers.{whole_numbers}
use motor_stand.LoadCell.{batch_size, OutputMinimal, OutputBatch}
use motor_stand.Client.{datagram, failed, receive_loop}
use motor_stand.Client.Delivery.{datagrams, receive_loop-log, log-main_loop}
use motor_stand.Server.{Tick, main_loop, start}
use motor_stand.Server.Stream.{received, payload, samples}
use motor_stand.Logger.{LoggerData, write_callback_batch}
use motor_stand.Logger.Lines.{lines}

abbrev constants : LoggerData ℤ
constants = record { m = pos 4; b = pos 2 }

abbrev sample : OutputMinimal
sample = record { collect_time = 3; raw_value = negsuc 8 }

abbrev full : OutputBatch
full = record { count = 430; entries = replicate 430 sample }

receive_loop-log_example :
    receive_loop (write_callback_batch constants) full (codes "#") (datagram full ∷ failed ∷ [])
    ≡ some (codes "#" ++ lines constants (received (full ∷ full ∷ [])))
receive_loop-log_example =
    receive_loop-log constants (datagram full ∷ failed ∷ []) full (codes "#")
      ((refl, length-replicate 430 sample), ((refl, length-replicate 430 sample), tt))

abbrev run : List (Tick ℤ)
run = record { next_raw = pos 5; tv_sec = 1; tv_nsec = 0; tare = pos 0 } ∷ []

log-main_loop_example :
    let out = (main_loop (pos 2) (pos 1) (start none) run).outbox in
    (log : List ℕ) × (receive_loop
        (write_callback_batch constants)
        full
        (codes "#")
        (datagrams out.sent)
      ≡ some log)
    × (log ++ lines constants (payload out.batch)
        ≡ codes "#" ++ lines constants (samples (pos 2) (pos 1) run))
    × (out.batch.count < batch_size)
log-main_loop_example = log-main_loop (pos 2) (pos 1) constants run full (codes "#")
