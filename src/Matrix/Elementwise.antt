-- ===== src/Matrix/Elementwise.antt =====
-- The cell by cell operations of src/numerical_basics.c. Any of the arguments may be the same matrix.
use motor_stand.Prelude.{
  ℕ, ◌+◌, ◌≡◌, refl, sym, ap, ap₂, ◌∙◌, ◌<◌, ◌*◌, ◌≤◌, ◌^◌, some, inl, inr, Bool-cases, arith,
  if◌then◌else◌, ◌==◌,
}
use motor_stand.Double.{Double, ◌⊕◌, ◌⊖◌, ◌⊗◌}
use motor_stand.Matrix.{
  Memory, index, load, store, for_cells, matadd, matsub, matdup, matsca, matidn, matzro, same_shape,
}
use motor_stand.Matrix.Store.{Same}
use motor_stand.Matrix.Fill.{for_cells-Filled}
use motor_stand.Matrix.Entries.{
  IsMat, SameShape, same_shape-SameShape, row_major, index-row_major, row_major-injective, entry,
  Gives, load-Same,
}

module _ {D : Type 0} ⦃d : Double D⦄ (h₀ : Memory D) (res : ℕ) (wanted : ℕ → ℕ → D) where
  -- The loops of all these functions, over the shape of the result.
  pub row_major_fill :
      (rows cols : ℕ) (value : ℕ → ℕ → Memory D → D)
      → IsMat D h₀ res
      → rows ≡ (h₀.cell res).rows
      → cols ≡ (h₀.cell res).cols
      → ((m n : ℕ) (h : Memory D)
          → m < rows
          → n < cols
          → Same D res h₀ h
          → load h res (index cols m n) ≡ load h₀ res (index cols m n)
          → value m n h ≡ wanted m n)
      → Gives h₀ res wanted
          (some (for_cells rows cols (λ m n h. store res (index cols m n) (value m n h) h) h₀))
  row_major_fill rows cols value v er ec sound =
      let small : rows * cols ≤ 2 ^ 32 = rw (er, ec) v.small in
      let filled = for_cells-Filled rows cols res h₀ (index cols) value wanted record {
        inside = λ m n hm hn.
            rw (index-row_major rows cols m n hm hn small, v.size, ← er, ← ec)
              (row_major rows cols m n hm hn);
        injective = λ m n i j hm hn hi hj e. row_major-injective cols m n i j hn hj (
            sym (index-row_major rows cols m n hm hn small)
            ∙ e
            ∙ index-row_major rows cols i j hi hj small);
        sound = sound;
      } in
      (
        filled.same,
        λ i j hi hj.
            let hi' : i < rows = rw er hi in
            let hj' : j < cols = rw ec hj in
            rw (filled.same.cols, ← ec, ← index-row_major rows cols i j hi' hj' small)
              (filled.cells i j hi' hj'),
      )

  -- A cell of the result from the cells of `l` and `r` at the same position.
  binary_fill :
      (f : D → D → D) (l r : ℕ)
      → IsMat D h₀ res
      → SameShape D h₀ l r
      → SameShape D h₀ l res
      → ((i j : ℕ) → f (entry h₀ l i j) (entry h₀ r i j) ≡ wanted i j)
      → Gives h₀ res wanted (
          some (
            for_cells
              (h₀.cell l).rows
              (h₀.cell l).cols
              (λ m n h.
                let pos = index (h₀.cell l).cols m n in
                store res pos (f (load h l pos) (load h r pos)) h)
              h₀))
  binary_fill f l r v lr lres same =
      let rows = (h₀.cell l).rows in
      let cols = (h₀.cell l).cols in
      row_major_fill rows cols (λ m n h. f (load h l (index cols m n)) (load h r (index cols m n)))
        v lres.rows lres.cols
        λ m n h hm hn s e.
          let pos = index cols m n in
          let small : rows * cols ≤ 2 ^ 32 = rw (lres.rows, lres.cols) v.small in
          let at : pos ≡ m * cols + n = index-row_major rows cols m n hm hn small in
          ap₂ f (load-Same l pos s e ∙ ap (load h₀ l) at)
            (load-Same r pos s e ∙ ap (load h₀ r) (at ∙ ap (λ c. m * c + n) lr.cols))
          ∙ same m n

module _ {D : Type 0} ⦃d : Double D⦄ (h : Memory D) where
  -- `matadd` gives the sums of the entries that `l` and `r` had before the call, also if `res` is `l`
  -- or `r`, and changes nothing else.
  pub matadd-Gives :
      (l r res : ℕ)
      → IsMat D h res
      → SameShape D h l r
      → SameShape D h l res
      → Gives h res (λ i j. entry h l i j ⊕ entry h r i j) (matadd l r res h)
  unfolding matadd
  matadd-Gives l r res v lr lres =
      rw (same_shape-SameShape h l r lr, same_shape-SameShape h l res lres)
        (binary_fill h res _ d.add l r v lr lres (λ i j. refl))

  -- `matsub`, likewise.
  pub matsub-Gives :
      (l r res : ℕ)
      → IsMat D h res
      → SameShape D h l r
      → SameShape D h l res
      → Gives h res (λ i j. entry h l i j ⊖ entry h r i j) (matsub l r res h)
  unfolding matsub
  matsub-Gives l r res v lr lres =
      rw (same_shape-SameShape h l r lr, same_shape-SameShape h l res lres)
        (binary_fill h res _ d.sub l r v lr lres (λ i j. refl))

  -- `matsca` gives the scaled entries, also in place.
  pub matsca-Gives :
      (a to : ℕ) (scalar : D)
      → IsMat D h to
      → SameShape D h a to
      → Gives h to (λ i j. entry h a i j ⊗ scalar) (matsca a to scalar h)
  unfolding matsca
  matsca-Gives a to scalar v s = rw (same_shape-SameShape h a to s) (
      binary_fill h to _ (λ x _. x ⊗ scalar) a a v (record { rows = refl; cols = refl }) s
        (λ i j. refl))

  -- `matdup` copies the entries.
  pub matdup-Gives :
      (a ad : ℕ) → IsMat D h ad → SameShape D h a ad → Gives h ad (entry h a) (matdup a ad h)
  unfolding matdup
  matdup-Gives a ad v s =
      rw (same_shape-SameShape h a ad s)
        (binary_fill h ad _ (λ x _. x) a a v (record { rows = refl; cols = refl }) s (λ i j. refl))

  -- `matidn` gives the identity matrix.
  pub matidn-Gives :
      (a : ℕ)
      → IsMat D h a
      → Gives h a (λ i j. if i == j then d.unit else d.nought) (some (matidn a h))
  unfolding matidn
  matidn-Gives a v =
      row_major_fill h a _ (h.cell a).rows (h.cell a).cols
        (λ m n _. if m == n then d.unit else d.nought) v refl refl (λ m n h' hm hn s e. refl)

  -- `matzro` gives the zero matrix.
  pub matzro-Gives : (a : ℕ) → IsMat D h a → Gives h a (λ i j. d.nought) (some (matzro a h))
  unfolding matzro
  matzro-Gives a v =
      row_major_fill h a _ (h.cell a).rows (h.cell a).cols (λ m n _. d.nought) v refl refl
        (λ m n h' hm hn s e. refl)

module _ {D : Type 0} ⦃d : Double D⦄ where
  -- A copy succeeds only between matrices of one shape.
  pub matdup-SameShape : (a ad : ℕ) (h h' : Memory D) → matdup a ad h ≡ some h' → SameShape D h a ad
  unfolding matdup
  matdup-SameShape a ad h h' e = elim (Bool-cases (same_shape h a ad)) [
    | inl same ↦ record { rows = ground arith; cols = ground arith }
    | inr other ↦ let e' = rw other at e in ground arith
  ]
