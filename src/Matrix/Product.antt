-- ===== src/Matrix/Product.antt =====
-- `mattrn` and `matmul` of src/numerical_basics.c: the result is another matrix than the arguments.
use motor_stand.Prelude.{
  ℕ, ◌≡◌, sym, ap, ap₂, ◌∙◌, ◌<◌, ◌*◌, ◌≤◌, ◌^◌, true, arith, ◌==◌, ◌≢◌, not, ◌&&◌, get_or,
}
use motor_stand.Prelude.Loops.{for_range, for_range_congr}
use motor_stand.Double.{Double, ◌⊕◌, ◌⊗◌}
use motor_stand.Matrix.{Memory, index, load, mattrn, matmul, dot}
use motor_stand.Matrix.Store.{Same}
use motor_stand.Matrix.Fill.{for_cells-Filled}
use motor_stand.Matrix.Entries.{
  IsMat, row_major, index-row_major, row_major-injective, entry, Gives,
}
use motor_stand.Matrix.Elementwise.{row_major_fill}

module _ {D : Type 0} ⦃d : Double D⦄ (h₀ : Memory D) where
  -- Another matrix than the one that is written reads as before.
  load_other :
      {res : ℕ} {h : Memory D} (p pos : ℕ)
      → Same D res h₀ h
      → p ≢ res
      → load h p pos ≡ load h₀ p pos
  load_other p pos s ne = ap (λ a. get_or a.vals pos d.nought) (s.others p ne)

  -- `mattrn` gives the transposed entries.
  pub mattrn-Gives :
      (a at : ℕ)
      → IsMat D h₀ a
      → IsMat D h₀ at
      → a ≢ at
      → (h₀.cell a).rows ≡ (h₀.cell at).cols
      → (h₀.cell a).cols ≡ (h₀.cell at).rows
      → Gives h₀ at (λ i j. entry h₀ a j i) (mattrn a at h₀)
  unfolding mattrn
  mattrn-Gives a at va vat ne er ec =
      let rows = (h₀.cell a).rows in
      let cols = (h₀.cell a).cols in
      let small : cols * rows ≤ 2 ^ 32 = rw (ec, er) vat.small in
      let filled =
        for_cells-Filled rows cols at h₀ (λ m n. index rows n m)
          (λ m n h. load h a (index cols m n)) (λ m n. entry h₀ a m n)
          (record {
            inside = λ m n hm hn.
                rw (index-row_major cols rows n m hn hm small, vat.size, ← er, ← ec)
                  (row_major cols rows n m hn hm);
            injective = λ m n i j hm hn hi hj e.
                let (en, em) = row_major-injective rows n m j i hm hi (
                  sym (index-row_major cols rows n m hn hm small)
                  ∙ e
                  ∙ index-row_major cols rows j i hj hi small) in
                (em, en);
            sound = λ m n h hm hn s e.
                load_other a (index cols m n) s ne
                ∙ ap (load h₀ a) (index-row_major rows cols m n hm hn va.small);
          }) in
      let fits : (rows == (h₀.cell at).cols) && (cols == (h₀.cell at).rows) && not (a == at)
          ≡ true =
        ground arith in
      rw fits (
        filled.same,
        λ i j hi hj.
            let hi' : i < cols = rw ec hi in
            let hj' : j < rows = rw er hj in
            rw (filled.same.cols, ← er, ← index-row_major cols rows i j hi' hj' small)
              (filled.cells j i hj' hi'),
      )

  dot-Same :
      {res : ℕ} {h : Memory D} (l r i j : ℕ)
      → Same D res h₀ h
      → l ≢ res
      → r ≢ res
      → dot h l r i j ≡ dot h₀ l r i j
  unfolding dot
  dot-Same l r i j s nl nr = rw (s.others l nl, s.others r nr)

-- The entry of a product, summed in the order of the source.
unfoldable pub sum_of_products : {D : Type 0} ⦃d : Double D⦄ → ℕ → (ℕ → D) → (ℕ → D) → D
sum_of_products ⦃d = d⦄ n x y = for_range n 0 (λ k sum. sum ⊕ x k ⊗ y k) d.nought

module _ {D : Type 0} ⦃d : Double D⦄ (h₀ : Memory D) where
  dot-entries :
      (l r i j : ℕ)
      → IsMat D h₀ l
      → IsMat D h₀ r
      → (h₀.cell l).cols ≡ (h₀.cell r).rows
      → i < (h₀.cell l).rows
      → j < (h₀.cell r).cols
      → dot h₀ l r i j ≡ sum_of_products (h₀.cell l).cols (entry h₀ l i) (λ k. entry h₀ r k j)
  unfolding dot sum_of_products
  dot-entries l r i j vl vr e hi hj =
      let n = (h₀.cell l).cols in
      let cols = (h₀.cell r).cols in
      for_range_congr _ _ n
        (λ k sum hk.
          ap₂ (λ x y. sum ⊕ x ⊗ y)
            (ap (load h₀ l) (index-row_major (h₀.cell l).rows n i k hi hk vl.small))
            (ap (load h₀ r) (index-row_major (h₀.cell r).rows cols k j (rw (← e) hk) hj vr.small)))
        n 0 d.nought (omega arith)

  -- `matmul` gives the sums of products of rows of `l` and columns of `r`, added from left to right;
  -- `l` and `r` may be the same matrix.
  pub matmul-Gives :
      (l r res : ℕ)
      → IsMat D h₀ l
      → IsMat D h₀ r
      → IsMat D h₀ res
      → l ≢ res
      → r ≢ res
      → (h₀.cell l).cols ≡ (h₀.cell r).rows
      → (h₀.cell l).rows ≡ (h₀.cell res).rows
      → (h₀.cell r).cols ≡ (h₀.cell res).cols
      → Gives h₀ res
          (λ i j. sum_of_products (h₀.cell l).cols (entry h₀ l i) (λ k. entry h₀ r k j))
          (matmul l r res h₀)
  unfolding matmul
  matmul-Gives l r res vl vr vres nl nr inner er ec =
      let rows = (h₀.cell l).rows in
      let cols = (h₀.cell r).cols in
      let fits : ((h₀.cell l).cols == (h₀.cell r).rows
            && (rows == (h₀.cell res).rows && cols == (h₀.cell res).cols)
            && (not (l == res) && not (r == res)))
          ≡ true =
        ground arith in
      rw fits (
        row_major_fill h₀ res _ rows cols (λ i j h. dot h l r i j) vres er ec
          (λ i j h hi hj s e. dot-Same h₀ l r i j s nl nr ∙ dot-entries l r i j vl vr inner hi hj))
