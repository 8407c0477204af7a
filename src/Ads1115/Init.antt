-- ===== src/Ads1115/Init.antt =====
-- `init_adc` and `reset_adc` of src/ads1115.c.
use motor_stand.Prelude.{
  ◌≡◌, refl, ◌∷◌, arith, true, false, ◌+◌, ◌*◌, ◌/◌, ◌%◌, Bool-cases, inl, inr,
}
use motor_stand.Prelude.Int.{ℤ, is_negative}
use motor_stand.Ads1115.{
  Codes, Driver, Pigpio, write_word, store_config, set_hithresh, set_lothresh, reset_adc, init_adc,
  InitResult, set_up, no_pigpio, no_bus, no_pin, conf_reg, loth_reg, hith_reg, i2c_1, i2c_addr,
  i2c_flags, pin_rdy, pi_input, init_codes, write_config,
}
use motor_stand.Ads1115.Swap.{swap_short-signed}
use motor_stand.Ads1115.Config.{AreCodes, register_of, write_config-store}

-- The high threshold 1 and the low threshold 0, then the configuration word of the codes.
reset_adc-store :
    (c : Codes) (d : Driver)
    → AreCodes c
    → (reset_adc (record d { config = store_config c })).trace
      ≡ write_word conf_reg (register_of c % 256 * 256 + register_of c / 256)
        ∷ write_word loth_reg 0
        ∷ write_word hith_reg 0x0100
        ∷ d.trace
unfolding reset_adc set_hithresh set_lothresh
reset_adc-store c d h =
    let below = write_word loth_reg 0 ∷ write_word hith_reg 0x0100 ∷ d.trace in
    rw (swap_short-signed 0 (omega arith), swap_short-signed 1 (omega arith))
      (write_config-store c (record d { trace = below }) h)

reset_adc-config : (d : Driver) → (reset_adc d).config ≡ d.config
unfolding reset_adc set_hithresh set_lothresh write_config
reset_adc-config d = refl

reset_adc-handle : (d : Driver) → (reset_adc d).i2c_handle ≡ d.i2c_handle
unfolding reset_adc set_hithresh set_lothresh write_config
reset_adc-handle d = refl

-- What `init_adc` leaves behind: the handle that the bus gave, the stored codes, and three words on
-- the bus.
pub record IsSetUp (pi : Pigpio) (before after : Driver) : Type 0 where
  pub handle : after.i2c_handle ≡ pi.i2c_open i2c_1 i2c_addr i2c_flags
  pub stored : after.config ≡ store_config init_codes
  pub words :
      after.trace
      ≡ write_word conf_reg 0xec0a
        ∷ write_word loth_reg 0
        ∷ write_word hith_reg 0x0100
        ∷ before.trace

abbrev handle_of : Pigpio → ℤ
handle_of pi = pi.i2c_open i2c_1 i2c_addr i2c_flags

abbrev mode_of : Pigpio → ℤ
mode_of pi = pi.set_mode pin_rdy pi_input

-- What each outcome of `init_adc` says of the answers of the library.
abbrev pub Explains : Pigpio → Driver → InitResult → Type 0
Explains pi d (set_up after) =
    (is_negative pi.initialise ≡ false)
    × (is_negative (handle_of pi) ≡ false)
    × (is_negative (mode_of pi) ≡ false)
    × IsSetUp pi d after
Explains pi d (no_pigpio code) = (code ≡ pi.initialise) × (is_negative code ≡ true)
Explains pi d (no_bus code) =
    (is_negative pi.initialise ≡ false) × (code ≡ handle_of pi) × (is_negative code ≡ true)
Explains pi d (no_pin code) =
    (is_negative pi.initialise ≡ false)
    × (is_negative (handle_of pi) ≡ false)
    × (code ≡ mode_of pi)
    × (is_negative code ≡ true)

module _ (pi : Pigpio) (d : Driver) where
  abbrev configured : Driver
  configured = record d { i2c_handle = handle_of pi; config = store_config init_codes }

  reset_adc-IsSetUp : IsSetUp pi d (reset_adc configured)
  reset_adc-IsSetUp = record {
    handle = reset_adc-handle configured;
    stored = reset_adc-config configured;
    words = reset_adc-store init_codes (record d { i2c_handle = handle_of pi }) (omega arith);
  }

  -- `init_adc` sets the driver up exactly if none of its three calls answers a negative number: the
  -- handle is kept, the codes stored, and three words written. Otherwise it exits with the first
  -- negative answer.
  pub init_adc_lem : Explains pi d (init_adc pi d)
  unfolding init_adc
  init_adc_lem = elim (Bool-cases (is_negative pi.initialise)) [
    | inl a ↦ rw a (refl, a)
    | inr a ↦ elim (Bool-cases (is_negative (handle_of pi))) [
      | inl b ↦ rw (a, b) (a, refl, b)
      | inr b ↦ elim (Bool-cases (is_negative (mode_of pi))) [
        | inl c ↦ rw (a, b, c) (a, b, refl, c)
        | inr c ↦ rw (a, b, c) (a, b, c, reset_adc-IsSetUp)
      ]
    ]
  ]
