-- ===== src/Hx711/Tests.antt =====
-- A converter that is ready at the second read and has all bits set.
use motor_stand.Prelude.{
  ℕ, zero, suc, ◌+◌, ◌<◌, ◌^◌, ◌≡◌, ◌≢◌, refl, ◌⊎◌, inl, inr, some, List, [], ◌∷◌, arith,
}
use motor_stand.Prelude.Int.{ℤ, pos}
use motor_stand.Hx711.{Pulse, Gpio, gpio_write, gpio_read, clock_out, pin_sck, pin_dt}
use motor_stand.Hx711.Pulses.{binary, bits, edges, pulses, clock_level, polled, clock_out-binary}

abbrev reads : List Pulse → ℕ
reads [] = 0
reads (gpio_read pin ∷ t) = suc (reads t)
reads (_ ∷ t) = reads t

abbrev level_after : ℕ → ℤ
level_after (suc zero) = pos 0
level_after _ = pos 1

abbrev all_set : Gpio
all_set = record {
  initialise = pos 79;
  set_mode = λ pin mode. pos 0;
  level = λ t pin. level_after (reads t);
}

level_after-IsLevel : (n : ℕ) → (level_after n ≡ pos 0) ⊎ (level_after n ≡ pos 1)
level_after-IsLevel zero = inr refl
level_after-IsLevel (suc zero) = inl refl
level_after-IsLevel (suc (suc n)) = inr refl

abbrev ready : List Pulse
ready = gpio_read pin_dt ∷ polled 1 (gpio_write pin_sck 0 ∷ [])

first_is_high : (i : ℕ) → i < 1 → level_after (reads (polled i (gpio_write pin_sck 0 ∷ []))) ≢ pos 0
first_is_high zero lt = λ e. ground arith
first_is_high (suc i) lt = absurd (omega arith)

clock_out-binary_example :
    (clock_out all_set 2 1 []
      ≡ some (pos (binary 0 (bits all_set 24 ready)), pulses 1 (pulses 24 ready)))
    × (binary 0 (bits all_set 24 ready) < 2 ^ 24)
    × (edges (pulses 1 (pulses 24 ready)) ≡ edges (polled 1 (gpio_write pin_sck 0 ∷ [])) + 24 + 1)
    × (clock_level (pulses 1 (pulses 24 ready)) ≡ 0)
clock_out-binary_example =
    clock_out-binary all_set (λ t. level_after-IsLevel (reads t)) 1 2 1 [] (omega arith)
      first_is_high refl

-- The bits of -1 are returned as the largest value.
all_set_value : binary 0 (bits all_set 24 ready) ≡ 0xffffff
all_set_value = refl
