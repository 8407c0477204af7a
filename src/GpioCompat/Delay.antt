-- ===== src/GpioCompat/Delay.antt =====
-- The stubs of src/gpio_compat.c: the time that they wait, and the driver of src/hx711.c on them.
use motor_stand.Prelude.{
  ℕ, zero, suc, ◌+◌, ◌*◌, ◌<◌, ◌≡◌, refl, ap, ◌∙◌, inl, some, List, ◌∷◌, arith,
}
use motor_stand.Prelude.Int.{pos}
use motor_stand.Hx711.{Pulse, gpio_write, gpio_read, pin_dt, pin_sck, clock_out}
use motor_stand.Hx711.Pulses.{binary, bits, pulses, pulsed, clock_out-binary}
use motor_stand.GpioCompat.{stub, gpio_sleep}

-- gpioDelay passes a valid time to nanosleep, with less than a second of nanoseconds, that is the number
-- of microseconds asked for, neither more nor less.
pub gpio_sleep-IsExact :
    (microseconds : ℕ)
    → let ts = gpio_sleep microseconds in
      (ts.tv_nsec < 1000000000) × (ts.tv_sec * 1000000000 + ts.tv_nsec ≡ microseconds * 1000)
unfolding gpio_sleep
gpio_sleep-IsExact microseconds = (omega arith, omega arith)

bits-stub : (n : ℕ) (t : List Pulse) → binary 0 (bits stub n t) ≡ 0
bits-stub zero t = refl
bits-stub (suc n) t = bits-stub n (gpio_read pin_dt ∷ pulsed t)

-- On the stubs next_value of src/hx711.c returns 0 after one read, for every gain.
pub clock_out-stub :
    (new_gain : ℕ) (t : List Pulse)
    → let ready = gpio_read pin_dt ∷ gpio_write pin_sck 0 ∷ t in
      clock_out stub 1 new_gain t ≡ some (pos 0, pulses new_gain (pulses 24 ready))
clock_out-stub new_gain t =
    let ready = gpio_read pin_dt ∷ gpio_write pin_sck 0 ∷ t in
    (clock_out-binary stub (λ t. inl refl) 0 1 new_gain t (omega arith)
      (λ i lt. absurd (omega arith)) refl).0
    ∙ ap (λ v. some (pos v, pulses new_gain (pulses 24 ready))) (bits-stub 24 ready)
