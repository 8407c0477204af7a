-- ===== src/LeastSquares/Normal.antt =====
-- What `first_order_least_squares_filter` of src/method_of_least_squares.c solves.
use motor_stand.Prelude.{
  ℕ, zero, suc, ◌+◌, ◌≡◌, refl, sym, ◌∙◌, ◌≢◌, false, List, [], ◌∷◌, ==_refl, ==_of_ne, length,
  arith,
}
use motor_stand.Prelude.Loops.{for_range}
use motor_stand.Prelude.Calls.{Succeeds, Succeeds-bind}
use motor_stand.Double.{Double, ◌⊕◌, ◌⊗◌, ◌⊘◌}
use motor_stand.Matrix.{Memory, Mat}
use motor_stand.Matrix.Small.{square_2, column_2, row_column, matmul_2}
use motor_stand.Inverse.{matinv}
use motor_stand.Inverse.Closed.{det, matinv_2}
use motor_stand.LeastSquares.{Pointers, first_round, solve}

module _ {D : Type 0} where
  -- A block for a matrix of four or two values.
  abbrev pub IsSquare : Mat D → Type 0
  IsSquare a = (w : D) × (x : D) × (y : D) × (z : D) × (a ≡ square_2 w x y z)

  abbrev pub IsColumn : Mat D → Type 0
  IsColumn a = (w : D) × (x : D) × (a ≡ column_2 w x)

  pub IsSquare-block :
      (xs : List D) → length xs ≡ 4 → IsSquare (record { rows = 2; cols = 2; vals = xs })
  IsSquare-block [] e = ground arith
  IsSquare-block (a ∷ []) e = ground arith
  IsSquare-block (a ∷ b ∷ []) e = ground arith
  IsSquare-block (a ∷ b ∷ c ∷ []) e = ground arith
  IsSquare-block (a ∷ b ∷ c ∷ e ∷ []) h = (a, b, c, e, refl)
  IsSquare-block (a ∷ b ∷ c ∷ e ∷ f ∷ xs) h = absurd (omega arith)

  pub IsColumn-block :
      (xs : List D) → length xs ≡ 2 → IsColumn (record { rows = 2; cols = 1; vals = xs })
  IsColumn-block [] e = ground arith
  IsColumn-block (a ∷ []) e = ground arith
  IsColumn-block (a ∷ b ∷ []) e = (a, b, refl)
  IsColumn-block (a ∷ b ∷ c ∷ xs) e = absurd (omega arith)

pub record Apart (p : Pointers) : Type 0 where
  pub eq_ac : p.eq ≢ p.ac
  pub eq_ei : p.eq ≢ p.ei
  pub eq_co : p.eq ≢ p.co
  pub ac_ei : p.ac ≢ p.ei
  pub ac_co : p.ac ≢ p.co
  pub ei_co : p.ei ≢ p.co

-- The equations, their right side, and room for the inverse and the result.
pub record Holds (D : Type 0) (p : Pointers) (h : Memory D) (eq ac : Mat D) : Type 0 where
  pub eq_cell : h.cell p.eq ≡ eq
  pub ac_cell : h.cell p.ac ≡ ac
  pub ei_cell : IsSquare (h.cell p.ei)
  pub co_cell : IsColumn (h.cell p.co)

module _ {D : Type 0} ⦃d : Double D⦄ (p : Pointers) (apart : Apart p) (h : Memory D) where
  module _ (e₀ e₁ e₂ e₃ c₀ c₁ : D) where
    first_round-Holds :
        (x y : D)
        → Holds D p h (square_2 e₀ e₁ e₂ e₃) (column_2 c₀ c₁)
        → Holds D p
            (first_round p x y h)
            (square_2 e₀ (e₁ ⊕ x) (e₂ ⊕ x) (e₃ ⊕ x ⊗ x))
            (column_2 (c₀ ⊕ y) (c₁ ⊕ y ⊗ x))
    unfolding first_round
    first_round-Holds x y k =
        let away = ==_of_ne p.ac p.eq (λ q. apart.eq_ac (sym q)) in
        let home = ==_of_ne p.eq p.ac apart.eq_ac in
        record {
          eq_cell = rw (away, ==_refl p.eq, k.eq_cell) refl;
          ac_cell = rw (==_refl p.ac, home, k.ac_cell) refl;
          ei_cell = rw (==_of_ne p.ac p.ei apart.ac_ei, ==_of_ne p.eq p.ei apart.eq_ei) k.ei_cell;
          co_cell = rw (==_of_ne p.ac p.co apart.ac_co, ==_of_ne p.eq p.co apart.eq_co) k.co_cell;
        }

-- The sum over the rounds `i` to `i + n` of a loop, onto `start`.
unfoldable pub sum_from : {D : Type 0} ⦃d : Double D⦄ → ℕ → ℕ → (ℕ → D) → D → D
sum_from n i f start = for_range n i (λ k sum. sum ⊕ f k) start

-- The sum over all elements.
abbrev pub total : {D : Type 0} ⦃d : Double D⦄ → ℕ → (ℕ → D) → D
total ⦃d = d⦄ n f = sum_from n 0 f d.nought

module _ {D : Type 0} ⦃d : Double D⦄ (p : Pointers) (apart : Apart p) (x y : ℕ → D) where
  pub first_rounds-Holds :
      (n i : ℕ) (h : Memory D) (e₀ e₁ e₂ e₃ c₀ c₁ : D)
      → Holds D p h (square_2 e₀ e₁ e₂ e₃) (column_2 c₀ c₁)
      → Holds D p
          (for_range n i (λ i. first_round p (x i) (y i)) h)
          (square_2 e₀ (sum_from n i x e₁) (sum_from n i x e₂) (sum_from n i (λ i. x i ⊗ x i) e₃))
          (column_2 (sum_from n i y c₀) (sum_from n i (λ i. y i ⊗ x i) c₁))
  unfolding for_range sum_from
  first_rounds-Holds zero i h e₀ e₁ e₂ e₃ c₀ c₁ k = k
  first_rounds-Holds (suc n) i h e₀ e₁ e₂ e₃ c₀ c₁ k =
      first_rounds-Holds n (i + 1) (first_round p (x i) (y i) h) e₀ (e₁ ⊕ x i) (e₂ ⊕ x i)
        (e₃ ⊕ x i ⊗ x i) (c₀ ⊕ y i) (c₁ ⊕ y i ⊗ x i)
        (first_round-Holds p apart h e₀ e₁ e₂ e₃ c₀ c₁ (x i) (y i) k)

module _ {D : Type 0} ⦃d : Double D⦄ where
  -- The product of the inverse and the right side.
  abbrev pub solution : D → D → D → D → D → D → Mat D
  solution a b c e u v =
      let t = det a b c e in
      column_2 (row_column (e ⊘ t) (d.neg b ⊘ t) u v) (row_column (d.neg c ⊘ t) (a ⊘ t) u v)

module _ {D : Type 0} ⦃d : Double D⦄ (garbage : ℕ → List D) (h : Memory D) where
  pub solve_2 :
      (p : Pointers) (apart : Apart p) (a b c e u v : D)
      → Holds D p h (square_2 a b c e) (column_2 u v)
      → d.eq (det a b c e) d.nought ≡ false
      → Succeeds (λ h'. h'.cell p.co ≡ solution a b c e u v) (solve garbage p h)
  unfolding solve
  solve_2 p apart a b c e u v k regular =
      let (w, x, y, z, room) = k.ei_cell in
      let (w', x', result) = k.co_cell in
      let t = det a b c e in
      Succeeds-bind _ (matinv garbage p.eq p.ei h) _
        (matinv_2 garbage h a b c e p.eq p.ei w x y z apart.eq_ei k.eq_cell room regular)
        (λ h' i.
          matmul_2 h' p.ei p.ac p.co (e ⊘ t) (d.neg b ⊘ t) (d.neg c ⊘ t) (a ⊘ t) u v w' x'
            apart.ei_co apart.ac_co i.0 (i.1 p.ac apart.ac_ei ∙ k.ac_cell)
            (i.1 p.co (λ q. apart.ei_co (sym q)) ∙ result))
