-- ===== src/Prelude/Calls.antt =====
-- Chains of calls that may abort, for `do` blocks, and what is known of the result of a chain.
use mathlib.Core.Path.{◌≡◌, refl}
use mathlib.Core.Option.{Option, none, some}
use native.Mathlib.Omega.{arith}

infixl 5 ◌>>=◌
abbrev pub ◌>>=◌ {ℓ κ} : {A : Type ℓ} {B : Type κ} → Option A → (A → Option B) → Option B
none >>= f = none
some a >>= f = f a

-- The call does not abort and its result is as wanted.
abbrev pub Succeeds {ℓ} : {A : Type ℓ} → (A → Type 0) → Option A → Type 0
Succeeds wanted none = ⊥
Succeeds wanted (some a) = wanted a

pub Succeeds-bind {ℓ κ} :
    {A : Type ℓ} {B : Type κ} {P : A → Type 0} (Q : B → Type 0) (m : Option A) (f : A → Option B)
    → Succeeds P m
    → ((a : A) → P a → Succeeds Q (f a))
    → Succeeds Q (m >>= f)
Succeeds-bind Q none f p k = absurd p
Succeeds-bind Q (some a) f p k = k a p

pub Succeeds-map {ℓ} :
    {A : Type ℓ} {P Q : A → Type 0} (m : Option A)
    → Succeeds P m
    → ((a : A) → P a → Q a)
    → Succeeds Q m
Succeeds-map none p k = absurd p
Succeeds-map (some a) p k = k a p

-- A chain that gives a result has one of its first call.
pub bind-some {ℓ κ} :
    {A : Type ℓ} {B : Type κ} (m : Option A) (f : A → Option B) (b : B)
    → (m >>= f) ≡ some b
    → (a : A) × (m ≡ some a) × (f a ≡ some b)
bind-some none f b e = ground arith
bind-some (some a) f b e = (a, refl, e)

pub Succeeds-some {ℓ} :
    {A : Type ℓ} (wanted : A → Type 0) (r : Option A)
    → Succeeds wanted r
    → (a : A) × (r ≡ some a) × wanted a
Succeeds-some wanted none h = absurd h
Succeeds-some wanted (some a) h = (a, refl, h)
