-- ===== src/Ads1115.antt =====
-- The ADS1115 driver, src/ads1115.c and src/ads1115.h: configuration word, thresholds, readiness and
-- conversion reads over the I2C bus. The pigpio library is a parameter: `Pigpio` gives what its calls
-- return. The driver state keeps the calls that were made, in order.
pub mod Swap
pub mod Config
pub mod Reading
pub mod Init
mod Tests
use Prim.Native.Nat.{bit_and, bit_or}
use motor_stand.Prelude.{
  ℕ, zero, suc, ◌+◌, ◌*◌, ◌/◌, ◌%◌, ◌^◌, ◌≡◌, Bool, not, Option, none, some, List, [], ◌∷◌, ◌++◌,
  if◌then◌else◌,
}
use motor_stand.Prelude.Int.{ℤ, pos, eq_ℤ, is_negative, signed, pattern_of}

abbrev pub i2c_addr : ℕ
i2c_addr = 0x48

abbrev pub i2c_1 : ℕ
i2c_1 = 1

abbrev pub i2c_flags : ℕ
i2c_flags = 0

abbrev pub conv_reg : ℕ
conv_reg = 0

abbrev pub conf_reg : ℕ
conf_reg = 1

abbrev pub loth_reg : ℕ
loth_reg = 2

abbrev pub hith_reg : ℕ
hith_reg = 3

abbrev pub pin_rdy : ℕ
pin_rdy = 17

-- `PI_INPUT` of pigpio
abbrev pub pi_input : ℕ
pi_input = 0

abbrev pub adc_max : ℕ
adc_max = 0x7fff

-- `struct ads1115_settings`: what a read of each bit-field gives. They are signed `int` bit-fields.
pub record Settings : Type 0 where
  pub input_multiplexer : ℤ
  pub gain_amplifier : ℤ
  pub operating_mode : ℤ
  pub data_rate : ℤ
  pub comparator_mode : ℤ
  pub comparator_polarity : ℤ
  pub latching_comparator : ℤ
  pub comparator_queue_disable : ℤ

-- The codes that a client assigns to the fields, from the macros of the header.
pub record Codes : Type 0 where
  pub input_multiplexer : ℕ
  pub gain_amplifier : ℕ
  pub operating_mode : ℕ
  pub data_rate : ℕ
  pub comparator_mode : ℕ
  pub comparator_polarity : ℕ
  pub latching_comparator : ℕ
  pub comparator_queue_disable : ℕ

-- A store of `c` to an `int` bit-field of `w` bits keeps the low bits; a read extends their sign.
abbrev pub store_field : ℕ → ℕ → ℤ
store_field w c = signed w (c % 2 ^ w)

pub store_config : Codes → Settings
store_config c = record {
  input_multiplexer = store_field 3 c.input_multiplexer;
  gain_amplifier = store_field 3 c.gain_amplifier;
  operating_mode = store_field 1 c.operating_mode;
  data_rate = store_field 3 c.data_rate;
  comparator_mode = store_field 1 c.comparator_mode;
  comparator_polarity = store_field 1 c.comparator_polarity;
  latching_comparator = store_field 1 c.latching_comparator;
  comparator_queue_disable = store_field 2 c.comparator_queue_disable;
}

-- MUX_AIN0_AIN1, GAIN_0_256V, MODE_CONTIN, SPS_860, COMP_MODE_DEFAULT, COMP_POL_ACT_HIGH,
-- COMP_LATCH_YES, COMP_QUE_SINGLE
abbrev pub init_codes : Codes
init_codes = record {
  input_multiplexer = 0;
  gain_amplifier = 5;
  operating_mode = 0;
  data_rate = 7;
  comparator_mode = 0;
  comparator_polarity = 1;
  latching_comparator = 1;
  comparator_queue_disable = 0;
}

-- A call of the library that reaches the bus or the clock. A written word is the `unsigned int` that
-- the call receives.
pub data Access : Type 0 where
  read_word : (reg : ℕ) → Access
  write_word : (reg word : ℕ) → Access
  delay : (microseconds : ℕ) → Access
  close_bus : Access

-- The two static variables of the driver and what was done on the bus so far, the latest first.
pub record Driver : Type 0 where
  pub i2c_handle : ℤ
  pub config : Settings
  pub trace : List Access

-- What the calls of pigpio return. The answer to a read may depend on all that was done before.
pub record Pigpio : Type 0 where
  pub initialise : ℤ
  pub i2c_open : ℕ → ℕ → ℕ → ℤ
  pub set_mode : ℕ → ℕ → ℤ
  pub answer : List Access → ℕ → ℤ

abbrev pub did : Access → Driver → Driver
did a d = record d { trace = a ∷ d.trace }

-- `SWAP_BITS`, on the bits of the promoted operand; `__temp` is an unsigned short.
pub swap_bits : ℕ → ℕ
swap_bits x =
    let temp = bit_or 0 (bit_and x 0xff00 / 2 ^ 8) % 2 ^ 16 in
    bit_or temp (bit_and x 0x00ff * 2 ^ 8) % 2 ^ 16

-- The macro on a variable of type short.
pub swap_short : ℤ → ℤ
swap_short val = signed 16 (swap_bits (pattern_of 32 val))

pub set_lothresh : ℤ → Driver → Driver
set_lothresh val d = did (write_word loth_reg (pattern_of 32 (swap_short val))) d

pub set_hithresh : ℤ → Driver → Driver
set_hithresh val d = did (write_word hith_reg (pattern_of 32 (swap_short val))) d

-- `(field & mask) << shift`, or-ed into an unsigned short
abbrev pub or_field : ℕ → ℤ → ℕ → ℕ → ℕ
or_field val field mask shift = bit_or val (bit_and (pattern_of 32 field) mask * 2 ^ shift) % 2 ^ 16

pub config_word : Settings → ℕ
config_word c =
    let v = or_field 0 c.input_multiplexer 0x7 12 in
    let v = or_field v c.gain_amplifier 0x7 9 in
    let v = or_field v c.operating_mode 0x1 8 in
    let v = or_field v c.data_rate 0x7 5 in
    let v = or_field v c.comparator_mode 0x1 4 in
    let v = or_field v c.comparator_polarity 0x1 3 in
    let v = or_field v c.latching_comparator 0x1 2 in or_field v c.comparator_queue_disable 0x3 0

pub write_config : Driver → Driver
write_config d = did (write_word conf_reg (swap_bits (config_word d.config))) d

pub reset_adc : Driver → Driver
reset_adc d = write_config (set_lothresh (pos 0x0000) (set_hithresh (pos 0x0001) d))

module _ (pi : Pigpio) where
  -- A static function; the result is the C truth value.
  pub is_ready : Driver → Bool × Driver
  is_ready d =
      let res = pattern_of 16 (pi.answer d.trace conf_reg) in
      (not (eq_ℤ (pos (res / 2 ^ 15)) d.config.comparator_polarity), did (read_word conf_reg) d)

  pub read_conversion : Driver → ℤ × Driver
  read_conversion d = (
    swap_short (signed 16 (pattern_of 16 (pi.answer d.trace conv_reg))),
    did (read_word conv_reg) d,
  )

  -- `while (!is_ready()) gpioDelay(1);` with fuel for the polls
  pub wait_ready : ℕ → Driver → Option Driver
  wait_ready zero d = none
  wait_ready (suc fuel) d =
      let (ready, polled) = is_ready d in
      let rest = wait_ready fuel (did (delay 1) polled) in if ready then some polled else rest

  -- The gain is ignored; the second poll's result is not used.
  pub next_value : ℕ → ℕ → Driver → Option (ℤ × Driver)
  next_value fuel new_gain d = elim (wait_ready fuel d) [
    | none ↦ none
    | some waited ↦ let (ready, polled) = is_ready waited in some (read_conversion polled)
  ]

pub close_adc : Driver → Driver
close_adc d = did close_bus d

-- How `init_adc` ends: with the driver set up, or in one of its calls of `exit(1)`.
pub data InitResult : Type 0 where
  set_up : Driver → InitResult
  no_pigpio : ℤ → InitResult
  no_bus : ℤ → InitResult
  no_pin : ℤ → InitResult

pub init_adc : Pigpio → Driver → InitResult
init_adc pi d =
    let handle = pi.i2c_open i2c_1 i2c_addr i2c_flags in
    let mode = pi.set_mode pin_rdy pi_input in
    if is_negative pi.initialise
    then no_pigpio pi.initialise
    else if is_negative handle
    then no_bus handle
    else if is_negative mode
    then no_pin mode
    else set_up (reset_adc (record d { i2c_handle = handle; config = store_config init_codes }))
