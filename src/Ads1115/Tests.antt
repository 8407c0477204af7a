-- ===== src/Ads1115/Tests.antt =====
-- The driver of the ADS1115 at concrete inputs.
use motor_stand.Prelude.{ℕ, false, ◌≡◌, refl, some, List, [], ◌∷◌, if◌then◌else◌, ◌==◌, arith}
use motor_stand.Prelude.Int.{ℤ, pos, negsuc}
use motor_stand.Ads1115.{
  Codes, Driver, Pigpio, Access, read_word, write_word, delay, did, store_config, init_codes,
  is_ready, read_conversion, next_value, write_config, init_adc, conf_reg, conv_reg, swap_short,
  swap_bits,
}
use motor_stand.Ads1115.Config.{write_config-store}
use motor_stand.Ads1115.Reading.{
  of_bytes, is_ready-polarity, read_conversion-bytes, next_value-total,
}
use motor_stand.Ads1115.Init.{Explains, init_adc_lem}

-- A device whose configuration register has bit 15 set from the third access on.
abbrev answers : List Access → ℕ → ℤ
answers [] reg = pos 0x8583
answers (a ∷ []) reg = pos 0
answers (a ∷ b ∷ t) reg = if reg == conf_reg then pos 0x8583 else pos 0x34fe

abbrev board : Pigpio
board = record {
  initialise = pos 79;
  i2c_open = λ bus address flags. pos 3;
  set_mode = λ pin mode. pos 0;
  answer = answers;
}

abbrev active_low : Codes
active_low = record init_codes { comparator_polarity = 0 }

abbrev idle : Codes → Driver
idle c = record { i2c_handle = pos 3; config = store_config c; trace = delay 7 ∷ [] }

abbrev driver : Driver
driver = idle init_codes

write_config-store_example : (write_config driver).trace ≡ write_word conf_reg 0xec0a ∷ delay 7 ∷ []
write_config-store_example = write_config-store init_codes driver (omega arith)

-- The word 0x0085 is the register 0x8500, whose high bit is set.
abbrev waiting : Pigpio
waiting = record board { answer = λ t reg. pos 0x0085 }

is_ready-polarity_example : (is_ready waiting (idle active_low)).0 ≡ false
is_ready-polarity_example =
    is_ready-polarity waiting active_low driver 0x85 0x00 (omega arith) (omega arith) (omega arith)
      refl

read_conversion-bytes_example :
    read_conversion board (did (read_word conf_reg) driver)
    ≡ (of_bytes 0xfe 0x34, did (read_word conv_reg) (did (read_word conf_reg) driver))
read_conversion-bytes_example =
    read_conversion-bytes board (did (read_word conf_reg) driver) 0xfe 0x34 (omega arith)
      (omega arith) refl

next_value-total_example :
    next_value board 1 0 driver
    ≡ some (read_conversion board (did (read_word conf_reg) (did (read_word conf_reg) driver)))
next_value-total_example = next_value-total board init_codes driver 0 0 refl refl

init_adc_lem_example : Explains board driver (init_adc board driver)
init_adc_lem_example = init_adc_lem board driver

-- The value -460 from the bytes 0xfe and 0x34.
reads : (read_conversion board (did (read_word conf_reg) driver)).0 ≡ negsuc 459
unfolding read_conversion swap_short swap_bits
reads = refl
