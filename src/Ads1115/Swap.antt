-- ===== src/Ads1115/Swap.antt =====
-- `SWAP_BITS` of src/ads1115.c: the byte order on the wire. pigpio sends and receives the low byte of
-- a word first, and the ADS1115 keeps its registers with the high byte first.
use motor_stand.Prelude.{ℕ, ◌+◌, ◌*◌, ◌/◌, ◌%◌, ◌^◌, ◌<◌, ◌≡◌, ap, ◌↔◌, arith}
use motor_stand.Prelude.Bits.{bit_and-shift, bit_and-mask, bit_or-fields, bit_or_comm, zero-bit_or}
use motor_stand.Prelude.Int.{ℤ, pos, negsuc, signed, pattern_of}
use motor_stand.Ads1115.{swap_bits, swap_short}

-- The two low bytes, exchanged.
pub swap_bits_lem : (x : ℕ) → swap_bits x ≡ x % 256 * 256 + x / 256 % 256
unfolding swap_bits
swap_bits_lem x = ground (
  arith,
  bit_and-shift 8 x 255,
  bit_and-mask 8 (x / 256),
  bit_and-mask 8 x,
  zero-bit_or (x / 256 % 256),
  bit_or_comm (x / 256 % 256) (x % 256 * 256),
  bit_or-fields 8 (x % 256) (x / 256 % 256) (omega arith),
)

-- A value of type short.
abbrev pub IsShort : ℤ → Type 0
IsShort (pos n) = n < 2 ^ 15
IsShort (negsuc n) = n < 2 ^ 15

pub signed-IsShort : (p : ℕ) → p < 2 ^ 16 → IsShort (signed 16 p)
signed-IsShort p h = ground arith

-- Both bytes of a short survive its promotion.
pattern_low : (p : ℕ) → p < 2 ^ 16 → pattern_of 32 (signed 16 p) % 2 ^ 16 ≡ p
pattern_low p h = ground arith

pub swap_short-signed :
    (p : ℕ) → p < 2 ^ 16 → swap_short (signed 16 p) ≡ signed 16 (p % 256 * 256 + p / 256)
unfolding swap_short
swap_short-signed p h =
    ap (signed 16) (omega (arith, swap_bits_lem (pattern_of 32 (signed 16 p)), pattern_low p h))

pub swap_short-IsShort : (z : ℤ) → IsShort (swap_short z)
unfolding swap_short
swap_short-IsShort z = signed-IsShort _ (omega (arith, swap_bits_lem (pattern_of 32 z)))

signed-pattern : (z : ℤ) → IsShort z → signed 16 (pattern_of 32 z % 2 ^ 16) ≡ z
signed-pattern (pos n) h = ground arith
signed-pattern (negsuc n) h = ground arith

-- Swapping twice gives the short back.
pub swap_short-swap_short : (z : ℤ) → IsShort z → swap_short (swap_short z) ≡ z
swap_short-swap_short z h =
    let p = pattern_of 32 z % 2 ^ 16 in
    let e : signed 16 p ≡ z = signed-pattern z h in
    let q = p % 256 * 256 + p / 256 in
    let back : q % 256 * 256 + q / 256 ≡ p = omega arith in
    rw (← e, swap_short-signed p (omega arith), swap_short-signed q (omega arith), back)

-- What the call receives for a threshold is the swapped word only if the low byte of the threshold is
-- below 0x80; otherwise it is out of the range of a word.
pub threshold_fits :
    (p : ℕ) → p < 2 ^ 16 → (pattern_of 32 (swap_short (signed 16 p)) < 2 ^ 16) ↔ (p % 256 < 0x80)
threshold_fits p h = rw (swap_short-signed p h) (ground arith)
