-- ===== src/Server.antt =====
-- The sampling side of the server, src/load_cell_serv.c: `push_batch` and the main loop. What the ADC
-- and the clock answer in a round is a `Tick`; the packets and the file are lists of what was written.
pub mod Stream
pub mod Clock
pub mod Arguments
mod Tests
use motor_stand.Prelude.{
  ℕ, ◌+◌, ◌*◌, ◌/◌, Option, none, some, List, [], ◌∷◌, ◌++◌, if◌then◌else◌, ◌==◌, set, replicate,
}
use motor_stand.Prelude.Int.{ℤ, pos}
use motor_stand.Double.{Double, ◌⊕◌, ◌⊖◌, ◌⊗◌, ◌⊘◌}
use motor_stand.Ads1115.{adc_max}
use motor_stand.LoadCell.{batch_size, OutputMinimal, OutputBatch, OutputData}

-- The batch that is being filled and the packets that `sendto` was given, the oldest first.
pub record Outbox : Type 0 where
  pub batch : OutputBatch
  pub sent : List OutputBatch

-- A write outside the array changes nothing; `Stream.IsValid` rules it out.
pub push_batch : OutputMinimal → Outbox → Outbox
push_batch entry out =
    let stored = set out.batch.entries out.batch.count entry in
    let count = out.batch.count + 1 in
    let full : OutputBatch = record { count = count; entries = stored } in
    if count == batch_size
    then record { batch = record { count = 0; entries = stored }; sent = out.sent ++ full ∷ [] }
    else record { batch = full; sent = out.sent }

-- One round's answers: `next_value`, CLOCK_MONOTONIC, and the value of the shared tare.
pub record Tick (D : Type 0) : Type 0 where
  pub next_raw : ℤ
  pub tv_sec : ℕ
  pub tv_nsec : ℕ
  pub tare : D

-- The locals of the loop. `writethrough` holds what was appended to the file, `none` if no file was
-- asked for.
pub record Loop : Type 0 where
  pub outbox : Outbox
  pub writethrough : Option (List OutputMinimal)

-- `if (writethrough) write(writethrough,...)`
abbrev append_to : Option (List OutputMinimal) → OutputMinimal → Option (List OutputMinimal)
append_to none o = none
append_to (some file) o = some (file ++ o ∷ [])

module _ {D : Type 0} ⦃d : Double D⦄ where
  -- The `output_data` that a round builds.
  pub collect : D → D → Tick D → OutputData D
  collect multiplier_m multiplier_b t =
      let next = (d.of_long t.next_raw ⊘ d.of_long (pos adc_max)) ⊗ multiplier_m ⊕ multiplier_b in
      record {
        minimal = record {
          collect_time = t.tv_sec * 1000000 + t.tv_nsec / 1000;
          raw_value = t.next_raw;
        };
        collect_time_sec = t.tv_sec;
        collect_time_nsec = t.tv_nsec;
        value = next;
        value_tare = next ⊖ t.tare;
      }

  -- One round of the loop, up to its check of the reset flag.
  pub round : D → D → Loop → Tick D → Loop
  round m b l t =
      let o = collect m b t in
      record {
        outbox = push_batch o.minimal l.outbox;
        writethrough = append_to l.writethrough o.minimal;
      }

  -- The rounds until the interrupt.
  pub main_loop : D → D → Loop → List (Tick D) → Loop
  main_loop m b l [] = l
  main_loop m b l (t ∷ ts) = main_loop m b (round m b l t) ts

abbrev zero_entry : OutputMinimal
zero_entry = record { collect_time = 0; raw_value = pos 0 }

-- `memset(&batch,0,sizeof(output_batch))`
pub empty_outbox : Outbox
empty_outbox = record {
  batch = record { count = 0; entries = replicate batch_size zero_entry };
  sent = [];
}

-- The state of the loop at its start, with a file or without.
pub start : Option (List OutputMinimal) → Loop
start file = record { outbox = empty_outbox; writethrough = file }
