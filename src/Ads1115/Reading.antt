-- ===== src/Ads1115/Reading.antt =====
-- `is_ready`, `read_conversion` and `next_value` of src/ads1115.c.
use motor_stand.Prelude.{
  ℕ, zero, suc, ◌+◌, ◌*◌, ◌/◌, ◌%◌, ◌^◌, ◌<◌, ◌≡◌, ap, ◌∙◌, true, some, arith, leb, ◌==◌,
  if◌then◌else◌, not, false,
}
use motor_stand.Prelude.Int.{ℤ, pos, negsuc, signed, pattern_of, eq_ℤ}
use motor_stand.Ads1115.{
  Codes, Driver, Pigpio, read_word, store_config, store_field, did, is_ready, read_conversion,
  wait_ready, next_value, conf_reg, conv_reg, delay,
}
use motor_stand.Ads1115.Swap.{IsShort, swap_short-signed, swap_short-IsShort}

-- The short that two bytes on the wire stand for, the high byte first.
abbrev pub of_bytes : ℕ → ℕ → ℤ
of_bytes first second = signed 16 (first * 256 + second)

-- Bit 15 of a word against the polarity that was stored.
ready_test :
    (z : ℤ) (p : ℕ)
    → p < 2
    → not (eq_ℤ (pos (pattern_of 16 z / 2 ^ 15)) (store_field 1 p))
      ≡ (if p == 1 then true else leb (2 ^ 15) (pattern_of 16 z))
ready_test (pos n) p h = ground arith
ready_test (negsuc n) p h = ground arith

-- `k` rounds of the wait loop.
abbrev pub after_polls : ℕ → Driver → Driver
after_polls zero d = d
after_polls (suc k) d = after_polls k (did (delay 1) (did (read_word conf_reg) d))

module _ (pi : Pigpio) where
  -- pigpio answers a word with the byte that came first, the high one of the register, as its low byte.
  -- With the polarity stored as active low a poll answers bit 7 of the configuration register, which is
  -- not its high bit; stored as active high it answers true whatever the register holds.
  pub is_ready-polarity :
      (c : Codes) (d : Driver) (first second : ℕ)
      → c.comparator_polarity < 2
      → first < 256
      → second < 256
      → pi.answer d.trace conf_reg ≡ pos (first + 256 * second)
      → let register = first * 256 + second in
        (is_ready pi (record d { config = store_config c })).0
        ≡ (if c.comparator_polarity == 1 then true else register / 2 ^ 7 % 2 == 1)
  unfolding is_ready store_config
  is_ready-polarity c d first second h hf hs e =
      let low : pattern_of 16 (pos (first + 256 * second)) ≡ first + 256 * second = omega arith in
      let bit : leb (2 ^ 15) (first + 256 * second) ≡ ((first * 256 + second) / 2 ^ 7 % 2 == 1) =
        ground arith in
      ready_test (pi.answer d.trace conf_reg) c.comparator_polarity h
      ∙ ap (λ b. if c.comparator_polarity == 1 then true else b)
          (ap (λ z. leb (2 ^ 15) (pattern_of 16 z)) e ∙ ap (leb (2 ^ 15)) low ∙ bit)

  polarity_high :
      (d : Driver) (c : Codes)
      → c.comparator_polarity ≡ 1
      → d.config ≡ store_config c
      → (is_ready pi d).0 ≡ true
  unfolding is_ready store_config
  polarity_high d c p e = rw (e, p) (ready_test (pi.answer d.trace conf_reg) 1 (omega arith))

  -- The wait ends at the first poll that answers true: with more fuel than the polls before it.
  pub wait_ready-first :
      (k fuel : ℕ) (d : Driver)
      → k < fuel
      → ((j : ℕ) → j < k → (is_ready pi (after_polls j d)).0 ≡ false)
      → (is_ready pi (after_polls k d)).0 ≡ true
      → wait_ready pi fuel d ≡ some (did (read_word conf_reg) (after_polls k d))
  unfolding wait_ready is_ready
  wait_ready-first k zero d lt before now = absurd (omega arith)
  wait_ready-first zero (suc fuel) d lt before now = rw now
  wait_ready-first (suc k) (suc fuel) d lt before now = rw (before 0 (omega arith)) (
      wait_ready-first k fuel (did (delay 1) (did (read_word conf_reg) d)) (omega arith)
        (λ j h. before (suc j) (omega arith)) now)

  -- The value is the two bytes of the conversion register, the high byte first.
  pub read_conversion-bytes :
      (d : Driver) (first second : ℕ)
      → first < 256
      → second < 256
      → pi.answer d.trace conv_reg ≡ pos (first + 256 * second)
      → read_conversion pi d ≡ (of_bytes first second, did (read_word conv_reg) d)
  unfolding read_conversion
  read_conversion-bytes d first second hf hs e =
      let p = first * 256 + second in
      let q = second * 256 + first in
      let low : pattern_of 16 (pos (first + 256 * second)) ≡ q = omega arith in
      let back : q % 256 * 256 + q / 256 ≡ p = omega arith in
      ap (λ v. (v, did (read_word conv_reg) d))
        (rw (e, low, swap_short-signed q (omega arith), back))

  pub read_conversion-IsShort : (d : Driver) → IsShort (read_conversion pi d).0
  unfolding read_conversion
  read_conversion-IsShort d = swap_short-IsShort _

  -- As `init_adc` stores the polarity, `next_value` returns with any positive fuel, after two polls and with no
  -- delay.
  pub next_value-total :
      (c : Codes) (d : Driver) (fuel gain : ℕ)
      → c.comparator_polarity ≡ 1
      → d.config ≡ store_config c
      → let polled = did (read_word conf_reg) (did (read_word conf_reg) d) in
        next_value pi (suc fuel) gain d ≡ some (read_conversion pi polled)
  unfolding next_value is_ready
  next_value-total c d fuel gain p e =
      let known : (is_ready pi d).0 ≡ true = polarity_high d c p e in
      let waited =
        wait_ready-first 0 (suc fuel) d (omega arith) (λ j h. absurd (omega arith)) known in
      rw (waited, next_value)
