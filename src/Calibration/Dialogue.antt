-- ===== src/Calibration/Dialogue.antt =====
-- The arrays of src/load_cell_calibration.c as the list of the values that are held.
use motor_stand.Prelude.{
  ℕ, zero, suc, ◌+◌, ◌-◌, ◌≤◌, ◌<◌, ◌≡◌, refl, sym, ap, ap₂, ◌∙◌, inl, inr, true, false, Bool-cases,
  List, [], ◌∷◌, ◌++◌, ◌==◌, if◌then◌else◌, length, take, set, take-set, length-set, length-take,
  ltb, arith,
}
use motor_stand.Prelude.Int.{ℤ}
use motor_stand.Prelude.Text.{codes, eq_text}
use motor_stand.Double.{Double, Strtod}
use motor_stand.Calibration.{
  Buffers, Answer, carry_on, faulted, more, finished, grow, undo, store_values, enter, normalised,
  answer, dialogue,
}

-- The values that are held, the known ones and the measured ones in the same order.
pub record Held (D : Type 0) : Type 0 where
  pub known : List D
  pub measured : List D

module _ {D : Type 0} where
  -- The arrays of four elements that the program starts with, `buf_pos` of them in use.
  pub record IsValid (s : Buffers D) : Type 0 where
    pub known : length s.known_values ≡ 4
    pub measured : length s.measurement ≡ 4
    pub len : s.buf_len ≡ 4
    pub room : s.buf_pos ≤ 4

  abbrev pub held : Buffers D → Held D
  held s = record { known = take s.buf_pos s.known_values; measured = take s.buf_pos s.measurement }

  abbrev pub but_last : List D → List D
  but_last xs = take (length xs - 1) xs

  abbrev pub expect_undo : Held D → Held D
  expect_undo p = record { known = but_last p.known; measured = but_last p.measured }

  -- A fifth value is not held: the program breaks.
  abbrev pub expect_enter : D → D → Held D → Answer (Held D)
  expect_enter v w p =
      if length p.known == 4
      then faulted
      else more (record { known = p.known ++ v ∷ []; measured = p.measured ++ w ∷ [] })

  -- The answer holds what is expected, in arrays that are as they should be.
  abbrev pub Refines : Answer (Buffers D) → Answer (Held D) → Type 0
  Refines faulted faulted = Unit {0}
  Refines (more s) (more p) = IsValid s × (held s ≡ p)
  Refines (finished s) (finished p) = IsValid s × (held s ≡ p)
  Refines _ _ = ⊥

  take-take : (m n : ℕ) (xs : List D) → m ≤ n → take m (take n xs) ≡ take m xs
  take-take zero n xs le = refl
  take-take (suc m) zero xs le = absurd (omega arith)
  take-take (suc m) (suc n) [] le = refl
  take-take (suc m) (suc n) (x ∷ xs) le = ap (λ t. x ∷ t) (take-take m n xs (omega arith))

  but_last-take : (n : ℕ) (xs : List D) → n ≤ length xs → but_last (take n xs) ≡ take (n - 1) xs
  but_last-take n xs le = rw (length-take n xs le) (take-take (n - 1) n xs (omega arith))

  undo-Refines : (s : Buffers D) → IsValid s → Refines (more (undo s)) (more (expect_undo (held s)))
  unfolding undo
  undo-Refines s v = elim (Bool-cases (s.buf_pos == 0)) [
    | inl none_held ↦ let e : s.buf_pos ≡ 0 = ground arith in rw none_held (v, rw e refl)
    | inr some_held ↦ rw some_held (
      record { known = v.known; measured = v.measured; len = v.len; room = omega (arith, v.room) },
      ap₂ (λ known measured. record { known = known; measured = measured })
          (sym (but_last-take s.buf_pos s.known_values (omega (arith, v.room, v.known))))
          (sym (but_last-take s.buf_pos s.measurement (omega (arith, v.room, v.measured)))),
    )
  ]

  held_next :
      (xs : List D) (n : ℕ) (a : D)
      → n < length xs
      → take (n + 1) (set xs n a) ≡ take n xs ++ a ∷ []
  held_next xs n a lt = let next : n + 1 ≡ suc n = omega arith in rw next (take-set xs n a lt)

  -- There is room for the values.
  enter_room :
      (a b : D) (s : Buffers D)
      → IsValid s
      → s.buf_pos < 4
      → Refines (enter a b s) (expect_enter a b (held s))
  unfolding enter store_values
  enter_room a b s v lt =
      let below : (s.buf_pos == s.buf_len) ≡ false = ground (arith, v.len, lt) in
      let stores : ltb s.buf_pos 4 ≡ true = ground arith in
      let few : (length (take s.buf_pos s.known_values) == 4) ≡ false =
        ground (arith, length-take s.buf_pos s.known_values (omega (arith, v.room, v.known)), lt) in
      rw (below, few)
        (rw (v.known, v.measured, stores)
          (
            record {
              known = length-set s.known_values s.buf_pos a ∙ v.known;
              measured = length-set s.measurement s.buf_pos b ∙ v.measured;
              len = v.len;
              room = omega arith;
            },
            ap₂ (λ known measured. record { known = known; measured = measured })
                (held_next s.known_values s.buf_pos a (omega (arith, lt, v.known)))
                (held_next s.measurement s.buf_pos b (omega (arith, lt, v.measured))),
          ))

  enter_full :
      (a b : D) (s : Buffers D)
      → IsValid s
      → s.buf_pos ≡ 4
      → Refines (enter a b s) (expect_enter a b (held s))
  unfolding enter store_values grow
  enter_full a b s v e =
      let many : (length (take s.buf_pos s.known_values) == 4) ≡ true =
        ground (arith, length-take s.buf_pos s.known_values (omega (arith, v.room, v.known)), e) in
      let one : length (take 1 s.known_values) ≡ 1 =
        length-take 1 s.known_values (omega (arith, v.known)) in
      rw many (rw (e, v.len) (rw one tt))

  enter-Refines :
      (a b : D) (s : Buffers D) → IsValid s → Refines (enter a b s) (expect_enter a b (held s))
  enter-Refines a b s v = elim (Bool-cases (s.buf_pos == 4)) [
    | inl full ↦ enter_full a b s v (ground arith)
    | inr some_room ↦ enter_room a b s v (ground (arith, v.room))
  ]

  carry_on-Refines :
      (a : Answer (Buffers D)) (p : Answer (Held D)) (f : Buffers D → Answer (Buffers D))
      (g : Held D → Answer (Held D))
      → Refines a p
      → ((s : Buffers D) → IsValid s → Refines (f s) (g (held s)))
      → Refines (carry_on a f) (carry_on p g)
  carry_on-Refines faulted faulted f g r k = r
  carry_on-Refines (more s) (more p) f g (v, e) k = rw (← e) (k s v)
  carry_on-Refines (finished s) (finished p) f g r k = r
  carry_on-Refines faulted (more p) f g r k = absurd r
  carry_on-Refines faulted (finished p) f g r k = absurd r
  carry_on-Refines (more s) faulted f g r k = absurd r
  carry_on-Refines (more s) (finished p) f g r k = absurd r
  carry_on-Refines (finished s) faulted f g r k = absurd r
  carry_on-Refines (finished s) (more p) f g r k = absurd r

module _ {D : Type 0} ⦃d : Double D⦄ (strtold : Strtod D) where
  -- What a line does to the list of the values.
  abbrev pub expect : List ℕ → ℤ → Held D → Answer (Held D)
  expect line raw p =
      if eq_text [] line
      then more p
      else if eq_text (codes "b") line
      then more (expect_undo p)
      else if eq_text (codes "q") line
      then finished p
      else expect_enter (strtold line).0 (normalised raw) p

  abbrev pub expected : List (List ℕ × ℤ) → Held D → Answer (Held D)
  expected [] p = more p
  expected ((line, raw) ∷ lines) p = carry_on (expect line raw p) (expected lines)

  answer-Refines :
      (line : List ℕ) (raw : ℤ) (s : Buffers D)
      → IsValid s
      → Refines (answer strtold line raw s) (expect line raw (held s))
  unfolding answer
  answer-Refines line raw s v = elim (Bool-cases (eq_text [] line)) [
    | inl blank ↦ rw blank (v, refl)
    | inr spoken ↦ elim (Bool-cases (eq_text (codes "b") line)) [
      | inl back ↦ rw (spoken, back) (undo-Refines s v)
      | inr forward ↦ elim (Bool-cases (eq_text (codes "q") line)) [
        | inl quit ↦ rw (spoken, forward, quit) (v, refl)
        | inr go_on ↦ rw (spoken, forward, go_on) (enter-Refines _ _ s v)
      ]
    ]
  ]

  -- The dialogue keeps a list of values, to which a number adds one and "b" takes the last one away. It
  -- holds four values at most: at a fifth it writes outside its arrays, since `realloc` shrinks them.
  pub dialogue-Refines :
      (lines : List (List ℕ × ℤ)) (s : Buffers D)
      → IsValid s
      → Refines (dialogue strtold lines s) (expected lines (held s))
  unfolding dialogue
  dialogue-Refines [] s v = (v, refl)
  dialogue-Refines ((line, raw) ∷ lines) s v =
      carry_on-Refines (answer strtold line raw s) (expect line raw (held s))
        (dialogue strtold lines) (expected lines) (answer-Refines line raw s v)
        (dialogue-Refines lines)
