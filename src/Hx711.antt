-- ===== src/Hx711.antt =====
-- The driver of the former converter, src/hx711.c and src/hx711.h: its bits are clocked out over two pins.
-- The pigpio library is a parameter; a read of the data pin depends on what was done to the pins before,
-- which is kept with the latest first. The file does not include its header; the constants are read from
-- there.
pub mod Pulses
mod Tests
use Prim.Native.Nat.{bit_or}
use motor_stand.Prelude.{
  ℕ, zero, suc, ◌*◌, ◌%◌, ◌^◌, Bool, Option, none, some, List, [], ◌∷◌, if◌then◌else◌,
}
use motor_stand.Prelude.Calls.{◌>>=◌}
use motor_stand.Prelude.Int.{ℤ, pos, eq_ℤ, is_negative, pattern_of, int_bits}

abbrev pub pin_dt : ℕ
pin_dt = 23

abbrev pub pin_sck : ℕ
pin_sck = 24

-- PI_INPUT and PI_OUTPUT of pigpio
abbrev pub dt_mode : ℕ
dt_mode = 0

abbrev pub sck_mode : ℕ
sck_mode = 1

-- The calls of pigpio: gpioWrite, gpioDelay, gpioRead.
pub data Pulse : Type 0 where
  gpio_write : ℕ → ℕ → Pulse
  gpio_delay gpio_read : ℕ → Pulse

-- What the calls of the library answer.
pub record Gpio : Type 0 where
  pub initialise : ℤ
  pub set_mode : ℕ → ℕ → ℤ
  pub level : List Pulse → ℕ → ℤ  -- gpioRead, after these calls

-- How `init_adc` ends: set up, or with `exit(1)` after one of its calls.
pub data Start : Type 0 where
  running no_library no_dt_pin no_sck_pin : Start

pub start_adc : Gpio → Start
start_adc gpio =
    if is_negative gpio.initialise
    then no_library
    else if is_negative (gpio.set_mode pin_dt dt_mode)
    then no_dt_pin
    else if is_negative (gpio.set_mode pin_sck sck_mode)
    then no_sck_pin
    else running

abbrev pub restart_adc : List Pulse → List Pulse
restart_adc trace =
    gpio_delay 5 ∷ gpio_write pin_sck 0 ∷ gpio_delay 100 ∷ gpio_write pin_sck 1 ∷ trace

module _ (gpio : Gpio) where
  -- The clock pulse of pop_bit, before the read.
  abbrev pub clocked : List Pulse → List Pulse
  clocked trace = gpio_write pin_sck 0 ∷ gpio_delay 1 ∷ gpio_write pin_sck 1 ∷ trace

  abbrev pub pop_bit : List Pulse → ℤ × List Pulse
  pop_bit trace = (gpio.level (clocked trace) pin_dt, gpio_read pin_dt ∷ clocked trace)

  -- The loop that waits for the data pin to fall, with fuel for its reads.
  pub wait_data : ℕ → List Pulse → Option (List Pulse)
  wait_data zero trace = none
  wait_data (suc fuel) trace =
      let rest = wait_data fuel (gpio_delay 1 ∷ gpio_read pin_dt ∷ trace) in
      if eq_ℤ (gpio.level trace pin_dt) (pos 0) then some (gpio_read pin_dt ∷ trace) else rest

  -- The loop that gathers `n` bits in the `uint` value.
  pub shift_in : ℕ → ℕ → List Pulse → ℕ × List Pulse
  shift_in zero value trace = (value, trace)
  shift_in (suc n) value trace =
      let (bit, popped) = pop_bit trace in
      shift_in n (bit_or (value * 2 % 2 ^ int_bits) (pattern_of int_bits bit)) popped

  -- The loop that selects the gain.
  pub pop_bits : ℕ → List Pulse → List Pulse
  pop_bits zero trace = trace
  pop_bits (suc n) trace = let (bit, popped) = pop_bit trace in pop_bits n popped

  pub clock_out : ℕ → ℕ → List Pulse → Option (ℤ × List Pulse)
  clock_out fuel new_gain trace = do
    waited ← wait_data fuel (gpio_write pin_sck 0 ∷ trace)
    let (value, read) = shift_in 24 0 waited
    some (pos value, pop_bits new_gain read)
