-- ===== src/Prelude/Bits.antt =====
-- `&` with a mask, shifted or not, and `|` of disjoint fields, as arithmetic at every width. The
-- native operations are stuck at variables; they mean a recursion on binary digits.
use Prim.Native.Nat.{
  ℕ, zero, suc, ◌+◌, ◌-◌, ◌*◌, ◌/◌, ◌%◌, ◌^◌, ◌≤◌, ◌<◌, min, max, bit_and, bit_or, digits,
  bit_and-bitwise, bit_or-bitwise,
}
use mathlib.Core.Path.{◌≡◌, refl, sym, ap, ◌∙◌}
use native.Mathlib.Nat.{pow-suc, one-le-pow, div-div-eq-div-mul, mod-lt, div-add-mod, le_refl}
use native.Mathlib.Nat.{mod-eq_of_lt, mul-add-mod_self_left}
use native.Mathlib.Omega.{arith}

-- With enough fuel the digits do not depend on it.
module _ (z : ℕ → ℕ) (f : ℕ → ℕ → ℕ) where
  digits_enough : (k l a b : ℕ) → a ≤ k → a ≤ l → digits z f k a b ≡ digits z f l a b
  digits_enough zero zero a b hk hl = refl
  digits_enough zero (suc l) zero b hk hl = refl
  digits_enough zero (suc l) (suc a) b hk hl = absurd (omega arith)
  digits_enough (suc k) zero zero b hk hl = refl
  digits_enough (suc k) zero (suc a) b hk hl = absurd (omega arith)
  digits_enough (suc k) (suc l) zero b hk hl = refl
  digits_enough (suc k) (suc l) (suc a) b hk hl =
      ap (λ t. t * 2 + f (suc a % 2) (b % 2))
        (digits_enough k l (suc a / 2) (b / 2) (omega arith) (omega arith))

-- The lowest digit of `&` and of `|`, and the rest.
bit_and-halves : (a b : ℕ) → bit_and a b ≡ bit_and (a / 2) (b / 2) * 2 + min (a % 2) (b % 2)
bit_and-halves zero b = omega (arith, bit_and-bitwise 0 b, bit_and-bitwise 0 (b / 2))
bit_and-halves (suc a) b = omega (
  arith,
  bit_and-bitwise (suc a) b,
  bit_and-bitwise (suc a / 2) (b / 2),
  digits_enough (λ _. 0) min a (suc a / 2) (suc a / 2) (b / 2) (omega arith) (le_refl _),
)

bit_or-halves : (a b : ℕ) → bit_or a b ≡ bit_or (a / 2) (b / 2) * 2 + max (a % 2) (b % 2)
bit_or-halves zero b = omega (arith, bit_or-bitwise 0 b, bit_or-bitwise 0 (b / 2))
bit_or-halves (suc a) b = omega (
  arith,
  bit_or-bitwise (suc a) b,
  bit_or-bitwise (suc a / 2) (b / 2),
  digits_enough (λ y. y) max a (suc a / 2) (suc a / 2) (b / 2) (omega arith) (le_refl _),
)

bit_and-none : (n a : ℕ) → a ≤ n → bit_and a 0 ≡ 0
bit_and-none zero a h = let e : a ≡ 0 = omega arith in rw e
bit_and-none (suc n) zero h = refl
bit_and-none (suc n) (suc a) h =
    omega (arith, bit_and-halves (suc a) 0, bit_and-none n (suc a / 2) (omega arith))

bit_or-none : (n a : ℕ) → a ≤ n → bit_or a 0 ≡ a
bit_or-none zero a h = let e : a ≡ 0 = omega arith in rw e
bit_or-none (suc n) zero h = refl
bit_or-none (suc n) (suc a) h =
    omega (arith, bit_or-halves (suc a) 0, bit_or-none n (suc a / 2) (omega arith))

shift_suc : (m k : ℕ) → m * 2 ^ suc k ≡ m * 2 ^ k * 2
shift_suc m k = omega (arith, ap (λ (t : ℕ). m * t) (pow-suc 2 k))

div-pow-suc : (a k : ℕ) → a / 2 / 2 ^ k ≡ a / 2 ^ suc k
div-pow-suc a k = div-div-eq-div-mul a 2 (2 ^ k) ∙ ap (λ t. a / t) (omega (arith, pow-suc 2 k))

-- A mask shifted to the left selects the bits behind the shift.
pub bit_and-shift : (k a m : ℕ) → bit_and a (m * 2 ^ k) ≡ bit_and (a / 2 ^ k) m * 2 ^ k
bit_and-shift zero a m =
    let one : m * 1 ≡ m = omega arith in
    let all : a / 1 ≡ a = omega arith in ground (arith, one, all)
bit_and-shift (suc k) a m = ground (
  arith,
  bit_and-halves a (m * 2 ^ suc k),
  shift_suc m k,
  bit_and-shift k (a / 2) m,
  div-pow-suc a k,
  shift_suc (bit_and (a / 2 ^ suc k) m) k,
)

mod-halves : (a p : ℕ) → 0 < p → (a / 2 % p) * 2 + a % 2 ≡ a % (2 * p)
mod-halves a p h =
    let q = a / 2 / p in
    let s : ℕ = (a / 2 % p) * 2 + a % 2 in
    let below : a / 2 % p < p = mod-lt (a / 2) h in
    let parts : a ≡ 2 * p * q + s = omega (arith, div-add-mod (a / 2) p) in
    sym
      (ap (λ t. t % (2 * p)) parts ∙ mul-add-mod_self_left (2 * p) q s ∙ mod-eq_of_lt (omega arith))

-- A mask of the `k` low bits is the remainder by `2 ^ k`.
pub bit_and-mask : (k a : ℕ) → bit_and a (2 ^ k - 1) ≡ a % 2 ^ k
bit_and-mask zero a = omega (arith, bit_and-none a a (le_refl a))
bit_and-mask (suc k) a = ground (
  arith,
  bit_and-halves a (2 ^ suc k - 1),
  pow-suc 2 k,
  one-le-pow k 2,
  bit_and-mask k (a / 2),
  mod-halves a (2 ^ k) (one-le-pow k 2 (omega arith)),
)

-- `|` of a field behind a shift and one below it is their sum.
pub bit_or-fields : (k q r : ℕ) → r < 2 ^ k → bit_or (q * 2 ^ k) r ≡ q * 2 ^ k + r
bit_or-fields zero q r h =
    let none : r ≡ 0 = omega arith in
    rw none (bit_or-none (q * 1) (q * 1) (le_refl _) ∙ omega arith)
bit_or-fields (suc k) q r h = ground (
  arith,
  bit_or-halves (q * 2 ^ suc k) r,
  shift_suc q k,
  pow-suc 2 k,
  bit_or-fields k q (r / 2) (omega (arith, pow-suc 2 k)),
)

bit_or_comm_fuel : (n a b : ℕ) → a ≤ n → bit_or a b ≡ bit_or b a
bit_or_comm_fuel zero a b h =
    let e : a ≡ 0 = omega arith in
    rw e (omega (arith, bit_or-bitwise 0 b, bit_or-none b b (le_refl b)))
bit_or_comm_fuel (suc n) zero b h = omega (arith, bit_or-bitwise 0 b, bit_or-none b b (le_refl b))
bit_or_comm_fuel (suc n) (suc a) b h = omega (
  arith,
  bit_or-halves (suc a) b,
  bit_or-halves b (suc a),
  bit_or_comm_fuel n (suc a / 2) (b / 2) (omega arith),
)

pub bit_or_comm : (a b : ℕ) → bit_or a b ≡ bit_or b a
bit_or_comm a b = bit_or_comm_fuel a a b (le_refl a)

pub zero-bit_or : (b : ℕ) → bit_or 0 b ≡ b
zero-bit_or b = bit_or-bitwise 0 b
