-- ===== src/GpioCompat.antt =====
-- The stubs of src/gpio_compat.c and src/load_cell_cli_stub.c for builds without the pigpio library and
-- without sockets.
pub mod Delay
use motor_stand.Prelude.{ℕ, ◌*◌, ◌/◌, ◌%◌, List}
use motor_stand.Prelude.Int.{ℤ, pos, negsuc}
use motor_stand.Hx711.{Pulse, Gpio}

-- What the stubs of gpioInitialise, gpioSetMode and gpioRead return.
abbrev pub stub : Gpio
stub = record { initialise = pos 0; set_mode = λ pin mode. pos 0; level = λ trace pin. pos 0 }

-- `struct timespec`
pub record Timespec : Type 0 where
  pub tv_sec : ℕ
  pub tv_nsec : ℕ

-- The time for which gpioDelay sleeps.
pub gpio_sleep : ℕ → Timespec
gpio_sleep microseconds = record {
  tv_sec = microseconds / 1000000;
  tv_nsec = microseconds % 1000000 * 1000;
}

-- `(pthread_t)-1`, whatever the callback.
abbrev pub run_load_cell_cli_stub : ℤ
run_load_cell_cli_stub = negsuc 0
