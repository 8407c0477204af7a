-- ===== src/Ads1115/Config.antt =====
-- `write_config` of src/ads1115.c: the word that the eight settings make up.
use Prim.Native.Nat.{bit_and}
use native.Mathlib.Nat.{mod-eq_of_lt}
use motor_stand.Prelude.{ℕ, ◌+◌, ◌*◌, ◌/◌, ◌%◌, ◌^◌, ◌<◌, ◌≡◌, ap, ◌∙◌, arith, ◌∷◌}
use motor_stand.Prelude.Bits.{bit_and-mask, bit_or-fields}
use motor_stand.Prelude.Int.{ℤ, pattern_of}
use motor_stand.Ads1115.{
  Codes, Driver, store_field, store_config, or_field, config_word, write_config, write_word,
  conf_reg,
}
use motor_stand.Ads1115.Swap.{swap_bits_lem}

-- Codes that fit their bit-fields.
pub record AreCodes (c : Codes) : Type 0 where
  pub input_multiplexer_lt : c.input_multiplexer < 8
  pub gain_amplifier_lt : c.gain_amplifier < 8
  pub operating_mode_lt : c.operating_mode < 2
  pub data_rate_lt : c.data_rate < 8
  pub comparator_mode_lt : c.comparator_mode < 2
  pub comparator_polarity_lt : c.comparator_polarity < 2
  pub latching_comparator_lt : c.latching_comparator < 2
  pub comparator_queue_disable_lt : c.comparator_queue_disable < 4

-- The register as the datasheet lays it out.
abbrev pub register_of : Codes → ℕ
register_of c =
    c.input_multiplexer * 2 ^ 12
    + c.gain_amplifier * 2 ^ 9
    + c.operating_mode * 2 ^ 8
    + c.data_rate * 2 ^ 5
    + c.comparator_mode * 2 ^ 4
    + c.comparator_polarity * 2 ^ 3
    + c.latching_comparator * 2 ^ 2
    + c.comparator_queue_disable

-- A mask of the field's width takes back the code, also where the field reads as negative.
mask_three : (c : ℕ) → c < 8 → bit_and (pattern_of 32 (store_field 3 c)) 7 ≡ c
mask_three c h = bit_and-mask 3 (pattern_of 32 (store_field 3 c)) ∙ ground arith

mask_two : (c : ℕ) → c < 4 → bit_and (pattern_of 32 (store_field 2 c)) 3 ≡ c
mask_two c h = bit_and-mask 2 (pattern_of 32 (store_field 2 c)) ∙ ground arith

mask_one : (c : ℕ) → c < 2 → bit_and (pattern_of 32 (store_field 1 c)) 1 ≡ c
mask_one c h = bit_and-mask 1 (pattern_of 32 (store_field 1 c)) ∙ ground arith

or_field-sum :
    (k q c s val : ℕ) (f : ℤ) (mask : ℕ)
    → val ≡ q * 2 ^ k
    → bit_and (pattern_of 32 f) mask ≡ c
    → c * 2 ^ s < 2 ^ k
    → q * 2 ^ k + c * 2 ^ s < 2 ^ 16
    → or_field val f mask s ≡ q * 2 ^ k + c * 2 ^ s
or_field-sum k q c s val f mask ev ec below fits =
    rw (ev, ec, bit_or-fields k q (c * 2 ^ s) below) (mod-eq_of_lt fits)

config_word-store : (c : Codes) → AreCodes c → config_word (store_config c) ≡ register_of c
unfolding config_word store_config
config_word-store c h =
    let m = c.input_multiplexer in
    let g = c.gain_amplifier in
    let o = c.operating_mode in
    let r = c.data_rate in
    let n = c.comparator_mode in
    let p = c.comparator_polarity in
    let l = c.latching_comparator in
    let q = c.comparator_queue_disable in
    let e1 =
      or_field-sum 15 0 m 12 0 (store_field 3 m) 7 (omega arith)
        (mask_three m h.input_multiplexer_lt) (omega arith) (omega arith) in
    let e2 =
      or_field-sum 12 m g 9 _ (store_field 3 g) 7 (e1 ∙ omega arith)
        (mask_three g h.gain_amplifier_lt) (omega arith) (omega arith) in
    let e3 =
      or_field-sum 9 (m * 8 + g) o 8 _ (store_field 1 o) 1 (e2 ∙ omega arith)
        (mask_one o h.operating_mode_lt) (omega arith) (omega arith) in
    let e4 =
      or_field-sum 8 (m * 16 + g * 2 + o) r 5 _ (store_field 3 r) 7 (e3 ∙ omega arith)
        (mask_three r h.data_rate_lt) (omega arith) (omega arith) in
    let e5 =
      or_field-sum 5 (m * 128 + g * 16 + o * 8 + r) n 4 _ (store_field 1 n) 1 (e4 ∙ omega arith)
        (mask_one n h.comparator_mode_lt) (omega arith) (omega arith) in
    let e6 =
      or_field-sum 4 (m * 256 + g * 32 + o * 16 + r * 2 + n) p 3 _ (store_field 1 p) 1
        (e5 ∙ omega arith) (mask_one p h.comparator_polarity_lt) (omega arith) (omega arith) in
    let e7 =
      or_field-sum 3 (m * 512 + g * 64 + o * 32 + r * 4 + n * 2 + p) l 2 _ (store_field 1 l) 1
        (e6 ∙ omega arith) (mask_one l h.latching_comparator_lt) (omega arith) (omega arith) in
    let e8 =
      or_field-sum 2 (m * 1024 + g * 128 + o * 64 + r * 8 + n * 4 + p * 2 + l) q 0 _
        (store_field 2 q) 3 (e7 ∙ omega arith) (mask_two q h.comparator_queue_disable_lt)
        (omega arith) (omega arith) in
    e8 ∙ omega arith

-- For all codes that fit their fields `write_config` writes one word to the configuration register.
-- It is the register of the datasheet with its bytes exchanged, whatever the fields read back as.
pub write_config-store :
    (c : Codes) (d : Driver)
    → AreCodes c
    → (write_config (record d { config = store_config c })).trace
      ≡ write_word conf_reg (register_of c % 256 * 256 + register_of c / 256) ∷ d.trace
unfolding write_config
write_config-store c d h =
    let word = config_word-store c h in
    let small : register_of c < 2 ^ 16 = omega arith in
    ap (λ w. write_word conf_reg w ∷ d.trace) (rw (word, swap_bits_lem) (omega arith))
