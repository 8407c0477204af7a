-- ===== src/Inverse/Closed.antt =====
-- The inverse of a 2 by 2 matrix in src/numerical_basics.c, and the system that it solves.
use motor_stand.Prelude.{
  Option, ℕ, ◌≡◌, refl, sym, ap, ◌∙◌, none, ◌≢◌, Bool, true, false, arith, List, ==_refl, ==_of_ne,
  some,
}
use motor_stand.Prelude.Calls.{Succeeds}
use motor_stand.Double.{Double, ◌⊖◌, ◌⊗◌, ◌⊘◌}
use motor_stand.Matrix.{Mat, Memory}
use motor_stand.Matrix.Small.{square_2}
use motor_stand.Inverse.{assert_regular, matinv, matinv_safe, inverse_2, det_2}

Succeeds-assert_regular :
    {D : Type 0} (P : Memory D → Type 0) (r : Bool × Memory D)
    → r.0 ≡ true
    → P r.1
    → Succeeds P (assert_regular (some r))
Succeeds-assert_regular P (true, h) e p = p
Succeeds-assert_regular P (false, h) e p = ground arith

module _ {D : Type 0} ⦃d : Double D⦄ where
  abbrev pub det : D → D → D → D → D
  det p q r s = p ⊗ s ⊖ q ⊗ r

  abbrev pub inverse_of : D → D → D → D → Mat D
  inverse_of p q r s = let t = det p q r s in square_2 (s ⊘ t) (d.neg q ⊘ t) (d.neg r ⊘ t) (p ⊘ t)

module _ {D : Type 0} ⦃d : Double D⦄ (garbage : ℕ → List D) (h : Memory D) where
  module _ (p q r s : D) where
    -- What `matinv` leaves in memory.
    abbrev pub Inverted : ℕ → Memory D → Type 0
    Inverted ainv h' =
        (h'.cell ainv ≡ inverse_of p q r s) × ((q : ℕ) → q ≢ ainv → h'.cell q ≡ h.cell q)

    inverse_2-Inverted :
        (a ainv : ℕ) (w x y z : D)
        → a ≢ ainv
        → h.cell a ≡ square_2 p q r s
        → h.cell ainv ≡ square_2 w x y z
        → d.eq (det p q r s) d.nought ≡ false
        → ((inverse_2 a ainv h).0 ≡ true) × Inverted ainv (inverse_2 a ainv h).1
    unfolding inverse_2 det_2
    inverse_2-Inverted a ainv w x y z ne ea eainv regular =
        let away = ==_of_ne ainv a (λ e. ne (sym e)) in
        (
          rw (ea, regular) refl,
          (
            rw (ea, regular, away, ==_refl ainv, eainv) refl,
            λ t other. rw (ea, regular, ==_of_ne ainv t (λ e. other (sym e))) refl,
          ),
        )

    matinv_safe_2 :
        (a ainv : ℕ) (w x y z : D)
        → a ≢ ainv
        → h.cell a ≡ square_2 p q r s
        → h.cell ainv ≡ square_2 w x y z
        → matinv_safe garbage a ainv h ≡ some (inverse_2 a ainv h)
    unfolding matinv_safe
    matinv_safe_2 a ainv w x y z ne ea eainv = rw (ea, eainv, ==_of_ne a ainv ne) refl

    pub matinv_2 :
        (a ainv : ℕ) (w x y z : D)
        → a ≢ ainv
        → h.cell a ≡ square_2 p q r s
        → h.cell ainv ≡ square_2 w x y z
        → d.eq (det p q r s) d.nought ≡ false
        → Succeeds (Inverted ainv) (matinv garbage a ainv h)
    unfolding matinv
    matinv_2 a ainv w x y z ne ea eainv regular =
        let (returned, inverted) = inverse_2-Inverted a ainv w x y z ne ea eainv regular in
        rw (matinv_safe_2 a ainv w x y z ne ea eainv)
          (Succeeds-assert_regular (Inverted ainv) (inverse_2 a ainv h) returned inverted)

    inverse_2-singular :
        (a ainv : ℕ)
        → h.cell a ≡ square_2 p q r s
        → d.eq (det p q r s) d.nought ≡ true
        → inverse_2 a ainv h ≡ (false, h)
    unfolding inverse_2 det_2
    inverse_2-singular a ainv ea singular = rw (ea, singular) refl

    pub matinv_2-singular :
        (a ainv : ℕ) (w x y z : D)
        → a ≢ ainv
        → h.cell a ≡ square_2 p q r s
        → h.cell ainv ≡ square_2 w x y z
        → d.eq (det p q r s) d.nought ≡ true
        → matinv garbage a ainv h ≡ none
    unfolding matinv
    matinv_2-singular a ainv w x y z ne ea eainv singular =
        ap assert_regular (
          matinv_safe_2 a ainv w x y z ne ea eainv
          ∙ ap some (inverse_2-singular a ainv ea singular))

assert_regular-some :
    {D : Type 0} (r : Option (Bool × Memory D)) (h : Memory D)
    → assert_regular r ≡ some h
    → r ≡ some (true, h)
assert_regular-some none h e = ground arith
assert_regular-some (some (true, g)) h e = let same : g ≡ h = ground arith in rw same refl
assert_regular-some (some (false, g)) h e = ground arith

-- An inversion that does not abort found the matrix regular.
pub matinv-matinv_safe :
    {D : Type 0} ⦃d : Double D⦄ (garbage : ℕ → List D) (a ainv : ℕ) (h h' : Memory D)
    → matinv garbage a ainv h ≡ some h'
    → matinv_safe garbage a ainv h ≡ some (true, h')
unfolding matinv
matinv-matinv_safe garbage a ainv h h' e = assert_regular-some _ h' e
