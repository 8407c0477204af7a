-- ===== src/Hx711/Pulses.antt =====
-- What next_value of src/hx711.c returns, and the clock pulses that it gives.
use Prim.Native.Nat.{bit_or}
use motor_stand.Prelude.{
  ℕ, zero, suc, ◌+◌, ◌*◌, ◌%◌, ◌^◌, ◌≤◌, ◌<◌, ◌≡◌, ◌≢◌, refl, ap, ◌⊎◌, inl, inr, some, List, [],
  ◌∷◌, arith, Bool-cases, if◌then◌else◌, ◌&&◌, not, ◌==◌,
}
use motor_stand.Prelude.Bits.{bit_or-fields}
use native.Mathlib.Nat.{pow-suc, one-le-pow, mod-eq_of_lt}
use motor_stand.Prelude.Int.{ℤ, pos, eq_ℤ, eq_ℤ_iff, pattern_of, int_bits}
use motor_stand.Hx711.{
  Pulse, gpio_write, gpio_delay, gpio_read, Gpio, pin_dt, pin_sck, wait_data, shift_in, pop_bits,
  clock_out,
}

-- The level of the clock: what was last written to its pin.
abbrev pub clock_level : List Pulse → ℕ
clock_level [] = 0
clock_level (gpio_write pin level ∷ t) =
    let before = clock_level t in if pin == pin_sck then level else before
clock_level (gpio_delay n ∷ t) = clock_level t
clock_level (gpio_read pin ∷ t) = clock_level t

-- The pulses of the clock: its level is low and becomes high.
abbrev pub edges : List Pulse → ℕ
edges [] = 0
edges (gpio_write pin level ∷ t) =
    let before = edges t in
    if (pin == pin_sck) && (clock_level t == 0) && not (level == 0) then suc before else before
edges (gpio_delay n ∷ t) = edges t
edges (gpio_read pin ∷ t) = edges t

-- A pulse on the clock, high for a microsecond.
abbrev pub pulsed : List Pulse → List Pulse
pulsed t = gpio_write pin_sck 0 ∷ gpio_delay 1 ∷ gpio_write pin_sck 1 ∷ t

-- `n` pulses, behind each of them a read of the data pin.
abbrev pub pulses : ℕ → List Pulse → List Pulse
pulses zero t = t
pulses (suc n) t = pulses n (gpio_read pin_dt ∷ pulsed t)

-- The number with the binary digits `bits` behind those of `value`, the highest first.
abbrev pub binary : ℕ → List ℕ → ℕ
binary value [] = value
binary value (b ∷ bits) = binary (value * 2 + b) bits

-- The bit that a level stands for.
abbrev pub bit_of : ℤ → ℕ
bit_of (pos zero) = 0
bit_of _ = 1

-- The calls after `n` reads of a pin that is still high.
abbrev pub polled : ℕ → List Pulse → List Pulse
polled zero t = t
polled (suc n) t = polled n (gpio_delay 1 ∷ gpio_read pin_dt ∷ t)

at_least : (v p : ℕ) → 0 < p → v ≤ v * p
at_least v zero h = absurd (omega arith)
at_least v (suc p) h = omega arith

one_more :
    (v n b : ℕ) → v * 2 ^ suc n + 2 ^ suc n ≤ 2 ^ 24 → b < 2 → (v * 2 + b) * 2 ^ n + 2 ^ n ≤ 2 ^ 24
one_more v n zero h lt = omega (arith, pow-suc 2 n, ap (λ (t : ℕ). v * t) (pow-suc 2 n))
one_more v n (suc zero) h lt = omega (arith, pow-suc 2 n, ap (λ (t : ℕ). v * t) (pow-suc 2 n))
one_more v n (suc (suc b)) h lt = absurd (omega arith)

-- A bit behind a value that leaves room for it.
shift_in_step :
    (v n b : ℕ)
    → v * 2 ^ suc n + 2 ^ suc n ≤ 2 ^ 24
    → b < 2
    → (bit_or (v * 2 % 2 ^ int_bits) b ≡ v * 2 + b) × ((v * 2 + b) * 2 ^ n + 2 ^ n ≤ 2 ^ 24)
shift_in_step v n b h lt =
    let small : v * 2 < 2 ^ int_bits =
      omega (arith, at_least v (2 ^ suc n) (one-le-pow (suc n) 2 (omega arith))) in
    (rw (mod-eq_of_lt small) (bit_or-fields 1 v b lt), one_more v n b h lt)

-- Each pulse is one, if the clock is low before the first of them, and leaves it low.
pulses-edges :
    (n : ℕ) (t : List Pulse)
    → clock_level t ≡ 0
    → (clock_level (pulses n t) ≡ 0) × (edges (pulses n t) ≡ edges t + n)
pulses-edges zero t low = (low, omega arith)
pulses-edges (suc n) t low =
    let one : edges (gpio_read pin_dt ∷ pulsed t) ≡ suc (edges t) = rw low refl in
    let (after, rest) = pulses-edges n (gpio_read pin_dt ∷ pulsed t) refl in
    (after, omega (arith, rest, one))

polled-clock_level : (n : ℕ) (t : List Pulse) → clock_level (polled n t) ≡ clock_level t
polled-clock_level zero t = refl
polled-clock_level (suc n) t = polled-clock_level n (gpio_delay 1 ∷ gpio_read pin_dt ∷ t)

module _ (gpio : Gpio) where
  -- The documentation of gpioRead: the level of a pin that exists is 0 or 1.
  abbrev pub IsLevel : ℤ → Type 0
  IsLevel z = (z ≡ pos 0) ⊎ (z ≡ pos 1)

  -- The bits that are read behind the next `n` pulses.
  abbrev pub bits : ℕ → List Pulse → List ℕ
  bits zero t = []
  bits (suc n) t = bit_of (gpio.level (pulsed t) pin_dt) ∷ bits n (gpio_read pin_dt ∷ pulsed t)

  wait_data-polled :
      (n fuel : ℕ) (t : List Pulse)
      → n < fuel
      → ((i : ℕ) → i < n → gpio.level (polled i t) pin_dt ≢ pos 0)
      → gpio.level (polled n t) pin_dt ≡ pos 0
      → wait_data gpio fuel t ≡ some (gpio_read pin_dt ∷ polled n t)
  unfolding wait_data
  wait_data-polled n zero t lt high low = absurd (omega arith)
  wait_data-polled zero (suc fuel) t lt high low = rw low refl
  wait_data-polled (suc n) (suc fuel) t lt high low =
      elim (Bool-cases (eq_ℤ (gpio.level t pin_dt) (pos 0))) [
        | inl e ↦ absurd (high 0 (omega arith) ((eq_ℤ_iff _ _).0 e))
        | inr e ↦
            rw e (wait_data-polled n fuel _ (omega arith) (λ i lt. high (suc i) (omega arith)) low)
      ]

  pop_bits-pulses : (n : ℕ) (t : List Pulse) → pop_bits gpio n t ≡ pulses n t
  unfolding pop_bits
  pop_bits-pulses zero t = refl
  pop_bits-pulses (suc n) t = pop_bits-pulses n (gpio_read pin_dt ∷ pulsed t)

  module _ (levels : (t : List Pulse) → IsLevel (gpio.level t pin_dt)) where
    bit_of-pattern : (z : ℤ) → IsLevel z → (pattern_of int_bits z ≡ bit_of z) × (bit_of z < 2)
    bit_of-pattern z h = elim h [
      | inl e ↦ rw e (refl, omega arith)
      | inr e ↦ rw e (refl, omega arith)
    ]

    shift_in-binary :
        (n value : ℕ) (t : List Pulse)
        → value * 2 ^ n + 2 ^ n ≤ 2 ^ 24
        → (shift_in gpio n value t ≡ (binary value (bits n t), pulses n t))
          × (binary value (bits n t) < 2 ^ 24)
    unfolding shift_in
    shift_in-binary zero value t h = (refl, omega arith)
    shift_in-binary (suc n) value t h =
        let z = gpio.level (pulsed t) pin_dt in
        let (same, low) = bit_of-pattern z (levels (pulsed t)) in
        let next = shift_in_step value n (bit_of z) h low in
        rw (same, next.0)
          (shift_in-binary n (value * 2 + bit_of z) (gpio_read pin_dt ∷ pulsed t) next.1)

    -- If every read of the data pin is 0 or 1 and the pin is first low at the read `n`, next_value returns
    -- within more than `n` reads the number with the next 24 bits, the highest first, each read behind a
    -- pulse of the clock; the number is below 2 ^ 24 and never negative. Behind the wait the clock is
    -- pulsed 24 times and once more for each step of the gain, by rises of its pin from low to high, and
    -- is left low.
    pub clock_out-binary :
        (n fuel new_gain : ℕ) (t : List Pulse)
        → let idle = gpio_write pin_sck 0 ∷ t in
          let ready = gpio_read pin_dt ∷ polled n idle in
          let ended = pulses new_gain (pulses 24 ready) in
          n < fuel
          → ((i : ℕ) → i < n → gpio.level (polled i idle) pin_dt ≢ pos 0)
          → gpio.level (polled n idle) pin_dt ≡ pos 0
          → (clock_out gpio fuel new_gain t ≡ some (pos (binary 0 (bits 24 ready)), ended))
            × (binary 0 (bits 24 ready) < 2 ^ 24)
            × (edges ended ≡ edges (polled n idle) + 24 + new_gain)
            × (clock_level ended ≡ 0)
    unfolding clock_out
    clock_out-binary n fuel new_gain t lt high low =
        let idle = gpio_write pin_sck 0 ∷ t in
        let ready = gpio_read pin_dt ∷ polled n idle in
        let (value, below) = shift_in-binary 24 0 ready (omega arith) in
        let (low_24, edges_24) = pulses-edges 24 ready (polled-clock_level n idle) in
        let (last, rest) = pulses-edges new_gain (pulses 24 ready) low_24 in
        (
          rw
              (
                wait_data-polled n fuel idle lt high low,
                value,
                pop_bits-pulses new_gain (pulses 24 ready),
              )
              refl,
          below,
          omega (arith, edges_24, rest),
          last,
        )
