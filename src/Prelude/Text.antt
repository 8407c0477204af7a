-- ===== src/Prelude/Text.antt =====
-- C strings as lists of character codes, without their terminator; comparison and the digits of
-- `%ld`.
use Prim.Native.Nat.{ℕ, zero, suc, ◌<◌, ◌+◌, ◌/◌, ◌%◌}
use Prim.Native.Char.{code}
use Prim.Native.String.{String}
use mathlib.Core.Path.{◌≡◌, refl}
use mathlib.Core.Logic.{◌↔◌, inl, inr}
use mathlib.Core.Bool.{Bool, true, false, ◌&&◌}
use mathlib.Core.List.{List, [], ◌∷◌, ◌++◌}
use native.Mathlib.Omega.{arith}
use motor_stand.Prelude.Tests.{◌==◌, if◌then◌else◌, ltb, leb, Bool-cases}
use motor_stand.Prelude.Int.{ℤ, pos, negsuc}

abbrev pub codes : String → List ℕ
codes String.[] = []
codes (String.◌∷◌ c s) = code c ∷ codes s

-- `strcmp(s,t) == 0`
abbrev pub eq_text : List ℕ → List ℕ → Bool
eq_text [] [] = true
eq_text (a ∷ s) (b ∷ t) = a == b && eq_text s t
eq_text _ _ = false

pub eq_text_iff : (s t : List ℕ) → (eq_text s t ≡ true) ↔ (s ≡ t)
eq_text_iff [] [] = (λ _. refl, λ _. refl)
eq_text_iff [] (b ∷ t) = ground arith
eq_text_iff (a ∷ s) [] = ground arith
eq_text_iff (a ∷ s) (b ∷ t) = ground (arith, eq_text_iff s t)

-- The decimal digits of `n`, before those in `rest`; as much fuel as `n` is enough.
print_digits : ℕ → ℕ → List ℕ → List ℕ
print_digits zero n rest = rest
print_digits (suc fuel) n rest =
    let more = print_digits fuel (n / 10) ((b'0' + n % 10) ∷ rest) in
    if ltb n 10 then (b'0' + n) ∷ rest else more

-- What `%ld` prints.
unfoldable pub print_long : ℤ → List ℕ
unfolding print_digits
print_long (pos n) = print_digits (suc n) n []
print_long (negsuc n) = b'-' ∷ print_digits (suc (suc n)) (suc n) []

print_long_runs : print_long (negsuc 1203) ≡ codes "-1204"
unfolding print_long
print_long_runs = refl

-- The first character of a C string; its terminator if there is none.
abbrev pub first : List ℕ → ℕ
first [] = 0
first (c ∷ s) = c

abbrev pub tail : List ℕ → List ℕ
tail [] = []
tail (c ∷ s) = s

-- `isdigit`
abbrev pub is_digit : ℕ → Bool
is_digit c = leb b'0' c && leb c b'9'

print_digits-first :
    (fuel n : ℕ) (rest more : List ℕ)
    → n < fuel
    → is_digit (first (print_digits fuel n rest ++ more)) ≡ true
unfolding print_digits
print_digits-first zero n rest more lt = absurd (omega arith)
print_digits-first (suc fuel) n rest more lt = elim (Bool-cases (ltb n 10)) [
  | inl small ↦ rw small (ground arith)
  | inr large ↦ rw large (print_digits-first fuel _ _ more (ground arith))
]

-- A number that is not negative is printed with a digit in front.
pub print_long-first :
    (n : ℕ) (more : List ℕ) → is_digit (first (print_long (pos n) ++ more)) ≡ true
unfolding print_long
print_long-first n more = print_digits-first (suc n) n [] more (omega arith)
