-- ===== src/Matrix/Small.antt =====
-- The matrices of two unknowns: `matzro` and `matmul` of src/numerical_basics.c on them.
use motor_stand.Prelude.{
  ℕ, ◌≡◌, refl, sym, ◌∙◌, ◌≢◌, ◌==◌, ◌&&◌, not, true, [], ◌∷◌, ==_refl, ==_of_ne,
}
use motor_stand.Prelude.Loops.{for_range}
use motor_stand.Prelude.Calls.{Succeeds}
use motor_stand.Double.{Double, ◌⊕◌, ◌⊗◌}
use motor_stand.Matrix.{Mat, Memory, for_cells, matmul, dot, matzro, store}
use motor_stand.Matrix.Store.{store_other}

module _ {D : Type 0} where
  abbrev pub square_2 : D → D → D → D → Mat D
  square_2 a b c e = record { rows = 2; cols = 2; vals = a ∷ b ∷ c ∷ e ∷ [] }

  abbrev pub column_2 : D → D → Mat D
  column_2 a b = record { rows = 2; cols = 1; vals = a ∷ b ∷ [] }

module _ {D : Type 0} ⦃d : Double D⦄ where
  -- A row of a product with a column.
  abbrev pub row_column : D → D → D → D → D
  row_column a b u v = d.nought ⊕ a ⊗ u ⊕ b ⊗ v

module _ {D : Type 0} ⦃d : Double D⦄ (h : Memory D) where
  dot_2 :
      (l r : ℕ) (a b c e u v : D)
      → h.cell l ≡ square_2 a b c e
      → h.cell r ≡ column_2 u v
      → (dot h l r 0 0 ≡ row_column a b u v) × (dot h l r 1 0 ≡ row_column c e u v)
  unfolding dot for_range
  dot_2 l r a b c e u v el er = (rw (el, er) refl, rw (el, er) refl)

module _ {D : Type 0} ⦃d : Double D⦄ (h : Memory D) where
  pub matmul_2 :
      (l r res : ℕ) (a b c e u v y z : D)
      → l ≢ res
      → r ≢ res
      → h.cell l ≡ square_2 a b c e
      → h.cell r ≡ column_2 u v
      → h.cell res ≡ column_2 y z
      → Succeeds
          (λ h'. h'.cell res ≡ column_2 (row_column a b u v) (row_column c e u v))
          (matmul l r res h)
  unfolding matmul for_cells for_range
  matmul_2 l r res a b c e u v y z nl nr el er eres =
      let first = (dot_2 h l r a b c e u v el er).0 in
      let h' = store res 0 (dot h l r 0 0) h in
      let second =
        (dot_2 h' l r a b c e u v (store_other h res l 0 _ nl ∙ el)
          (store_other h res r 0 _ nr ∙ er)).1 in
      let fits : (h.cell l).cols == (h.cell r).rows
            && ((h.cell l).rows == (h.cell res).rows && (h.cell r).cols == (h.cell res).cols)
            && (not (l == res) && not (r == res))
          ≡ true =
        rw (el, er, eres, ==_of_ne l res nl, ==_of_ne r res nr) refl in
      rw fits (rw (el, er) (rw (second, ==_refl res, eres, first) refl))

  pub matzro_square :
      (p : ℕ) (a b c e : D)
      → h.cell p ≡ square_2 a b c e
      → (matzro p h).cell p ≡ square_2 d.nought d.nought d.nought d.nought
  unfolding matzro for_cells for_range
  matzro_square p a b c e e₁ = rw (e₁, ==_refl p, e₁) refl

  pub matzro_column :
      (p : ℕ) (a b : D) → h.cell p ≡ column_2 a b → (matzro p h).cell p ≡ column_2 d.nought d.nought
  unfolding matzro for_cells for_range
  matzro_column p a b e₁ = rw (e₁, ==_refl p, e₁) refl

  pub matzro_square_other :
      (p t : ℕ) (a b c e : D) → t ≢ p → h.cell p ≡ square_2 a b c e → (matzro p h).cell t ≡ h.cell t
  unfolding matzro for_cells for_range
  matzro_square_other p t a b c e other e₁ = rw (e₁, ==_of_ne p t (λ q. other (sym q))) refl

  pub matzro_column_other :
      (p t : ℕ) (a b : D) → t ≢ p → h.cell p ≡ column_2 a b → (matzro p h).cell t ≡ h.cell t
  unfolding matzro for_cells for_range
  matzro_column_other p t a b other e₁ = rw (e₁, ==_of_ne p t (λ q. other (sym q))) refl
