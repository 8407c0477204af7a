-- ===== src/Server/Tests.antt =====
-- Runs of the sampling loop at concrete inputs.
use motor_stand.Prelude.{
  ℕ, ◌+◌, ◌*◌, ◌<◌, ◌≡◌, refl, some, none, List, [], ◌∷◌, ◌++◌, map, arith, All, length, replicate,
  length-replicate,
}
use motor_stand.Prelude.Int.{ℤ, pos, negsuc}
use motor_stand.Integers.{whole_numbers}
use motor_stand.LoadCell.{batch_size, OutputMinimal}
use motor_stand.Server.{Outbox, push_batch, Tick, collect, main_loop, start, zero_entry}
use motor_stand.Server.Stream.{
  IsValid, IsFull, received, payload, samples, retare, push_batch-IsValid, main_loop-stream,
  main_loop-file, main_loop-retare,
}

abbrev tick : ℕ → ℤ → Tick ℤ
tick sec raw = record { next_raw = raw; tv_sec = sec; tv_nsec = 5200; tare = pos 0 }

abbrev run : List (Tick ℤ)
run = tick 1 (pos 40) ∷ tick 2 (negsuc 6) ∷ []

-- One entry is missing in the batch.
abbrev nearly_full : Outbox
nearly_full = record {
  batch = record { count = 429; entries = replicate 430 zero_entry };
  sent = [];
}

abbrev entry : OutputMinimal
entry = record { collect_time = 9; raw_value = negsuc 4 }

nearly_full-IsValid : IsValid nearly_full
nearly_full-IsValid = record {
  room = omega arith;
  array = length-replicate 430 zero_entry;
  full = tt;
}

push_batch-IsValid_example : IsValid (push_batch entry nearly_full)
push_batch-IsValid_example = push_batch-IsValid entry nearly_full-IsValid

-- The entry that fills the batch sends it, and leaves an empty one.
sends_full :
    ((push_batch entry nearly_full).batch.count ≡ 0)
    × (length (push_batch entry nearly_full).sent ≡ 1)
unfolding push_batch
sends_full = (refl, refl)

main_loop-stream_example :
    let out = (main_loop (pos 2) (pos 1) (start none) run).outbox in
    (received out.sent ++ payload out.batch ≡ samples (pos 2) (pos 1) run)
    × All IsFull out.sent
    × (length run ≡ batch_size * length out.sent + out.batch.count)
    × (out.batch.count < batch_size)
main_loop-stream_example = main_loop-stream (pos 2) (pos 1) run none

main_loop-file_example :
    (main_loop (pos 2) (pos 1) (start (some (entry ∷ []))) run).writethrough
    ≡ some (entry ∷ samples (pos 2) (pos 1) run)
main_loop-file_example = main_loop-file (pos 2) (pos 1) run (entry ∷ [])

main_loop-retare_example :
    main_loop (pos 2) (pos 1) (start none) run
    ≡ main_loop (pos 3) (pos 0) (start none) (map (retare (λ t. pos 12)) run)
main_loop-retare_example =
    main_loop-retare (pos 2) (pos 1) (pos 3) (pos 0) (λ t. pos 12) run (start none)

collects : (collect (pos 2) (pos 1) (tick 77 (pos 1))).minimal.collect_time ≡ 77000005
unfolding collect
collects = refl
