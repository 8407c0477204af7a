-- ===== src/LoadCell.antt =====
-- The types and constants of src/load_cell.h that the server and its clients share, in the build with
-- FAST_AS_POSSIBLE set.
use motor_stand.Prelude.{ℕ, List}
use motor_stand.Prelude.Int.{ℤ}

abbrev pub batch_size : ℕ
batch_size = 430

-- `output_minimal`; the time is in microseconds.
pub record OutputMinimal : Type 0 where
  pub collect_time : ℕ
  pub raw_value : ℤ

-- `output_batch`; `entries` is the array `data` of BATCH_SIZE elements.
pub record OutputBatch : Type 0 where
  pub count : ℕ
  pub entries : List OutputMinimal

-- `output_data`
pub record OutputData (D : Type 0) : Type 0 where
  pub minimal : OutputMinimal
  pub collect_time_sec : ℕ
  pub collect_time_nsec : ℕ
  pub value : D
  pub value_tare : D
