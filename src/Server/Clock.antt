-- ===== src/Server/Clock.antt =====
-- The time stamps of src/load_cell_serv.c.
use motor_stand.Prelude.{◌^◌, ◌≤◌, ◌<◌, ◌⊎◌, ◌≡◌, arith}
use motor_stand.Double.{Double}
use motor_stand.Server.{Tick, collect}

-- A reading of the clock: fewer than 10^9 nanoseconds, and seconds that a long holds as microseconds.
pub record IsReading (D : Type 0) (t : Tick D) : Type 0 where
  pub nsec_lt : t.tv_nsec < 1_000_000_000
  pub sec_lt : t.tv_sec < 2 ^ 43

-- `s` was read no later than `t`.
abbrev pub IsBefore : {D : Type 0} → Tick D → Tick D → Type 0
IsBefore s t = (s.tv_sec < t.tv_sec) ⊎ ((s.tv_sec ≡ t.tv_sec) × (s.tv_nsec ≤ t.tv_nsec))

module _ {D : Type 0} ⦃d : Double D⦄ (m b : D) where
  -- The product and the sum of the time stamp fit a 64-bit long.
  pub collect_time_fits :
      (t : Tick D) → IsReading D t → (collect m b t).minimal.collect_time < 2 ^ 63
  unfolding collect
  collect_time_fits t r = omega arith

  -- Time stamps do not fall: a later reading of the clock has no smaller one.
  pub collect_time_mono :
      (s t : Tick D)
      → IsReading D s
      → IsReading D t
      → IsBefore s t
      → (collect m b s).minimal.collect_time ≤ (collect m b t).minimal.collect_time
  unfolding collect
  collect_time_mono s t rs rt h = omega arith
