-- ===== src/LeastSquares/Equations.antt =====
-- The solution of the normal equations in src/method_of_least_squares.c, for more than three unknowns.
use motor_stand.Prelude.{
  ℕ, ◌+◌, ◌*◌, ◌^◌, ◌≤◌, ◌<◌, ◌≡◌, sym, ap, ◌∙◌, some, inl, inr, List, Option-cases, length, get_or,
  arith,
}
use motor_stand.Double.{Double, ◌⊗◌}
use motor_stand.Double.Exact.{IsExact, HasExactZero}
use motor_stand.Double.Sums.{sum, sum_congr}
use motor_stand.Double.Products.{product-solves, for_range-add}
use motor_stand.Matrix.{Memory, load, matmul}
use native.Mathlib.Decide.{ℕ_discrete}
use motor_stand.Matrix.Store.{Same}
use motor_stand.Matrix.Entries.{IsMat, entry}
use motor_stand.Matrix.Product.{sum_of_products, matmul-Gives}
use motor_stand.Inverse.{matinv}
use motor_stand.Inverse.Closed.{matinv-matinv_safe}
use motor_stand.Inverse.Identity.{matinv_safe-IsInverse}
use motor_stand.LeastSquares.{Pointers, solve}
use motor_stand.LeastSquares.Normal.{Apart}

-- The matrix `q` was allocated and has room for `rows` by `cols` entries.
pub record IsSized (D : Type 0) (h : Memory D) (q m n : ℕ) : Type 0 where
  pub old : q < h.next
  pub rows : (h.cell q).rows ≡ m
  pub cols : (h.cell q).cols ≡ n
  pub size : length (h.cell q).vals ≡ m * n

pub IsSized-IsMat :
    {D : Type 0} (h : Memory D) (q rows cols : ℕ)
    → rows * cols ≤ 2 ^ 32
    → IsSized D h q rows cols
    → IsMat D h q
IsSized-IsMat h q rows cols small s = record {
  size = rw (s.rows, s.cols) s.size;
  small = rw (s.rows, s.cols) small;
}

-- The matrices of a fit of `n` unknowns.
pub record IsSystem (D : Type 0) (n : ℕ) (p : Pointers) (h : Memory D) : Type 0 where
  pub eq : IsSized D h p.eq n n
  pub ac : IsSized D h p.ac n 1
  pub ei : IsSized D h p.ei n n
  pub co : IsSized D h p.co n 1

IsSized-Same :
    {D : Type 0} {res : ℕ} {h h' : Memory D} (q m n : ℕ)
    → Same D res h h'
    → IsSized D h q m n
    → IsSized D h' q m n
IsSized-Same {D} {res} {h} {h'} q m n t s =
    let old : q < h'.next = rw t.next s.old in
    elim (ℕ_discrete q res) [
      | yes here ↦
          let s' : IsSized D h res m n = rw here at s in
          rw here (record {
            old = rw here at old;
            rows = t.rows ∙ s'.rows;
            cols = t.cols ∙ s'.cols;
            size = t.size ∙ s'.size;
          })
      | no other ↦
          let e = t.others q other in
          record {
            old = old;
            rows = ap (λ a. a.rows) e ∙ s.rows;
            cols = ap (λ a. a.cols) e ∙ s.cols;
            size = ap (λ a. length a.vals) e ∙ s.size;
          }
    ]

pub IsSystem-Same :
    {D : Type 0} {res n : ℕ} {p : Pointers} {h h' : Memory D}
    → Same D res h h'
    → IsSystem D n p h
    → IsSystem D n p h'
IsSystem-Same {D} {res} {n} {p} t s = record {
  eq = IsSized-Same p.eq n n t s.eq;
  ac = IsSized-Same p.ac n 1 t s.ac;
  ei = IsSized-Same p.ei n n t s.ei;
  co = IsSized-Same p.co n 1 t s.co;
}

module _ {D : Type 0} ⦃d : Double D⦄ where
  -- A column has its entries in their order.
  pub column_load : (h : Memory D) (q i : ℕ) → (h.cell q).cols ≡ 1 → entry h q i 0 ≡ load h q i
  column_load h q i e =
      let position : i * (h.cell q).cols + 0 ≡ i = rw e (omega arith) in ap (load h q) position

module _ {D : Type 0} ⦃d : Double D⦄ (garbage : ℕ → List D) where
  solve-calls :
      (p : Pointers) (h h' : Memory D)
      → solve garbage p h ≡ some h'
      → (between : Memory D) × (matinv garbage p.eq p.ei h ≡ some between)
        × (matmul p.ei p.ac p.co between ≡ some h')
  unfolding solve
  solve-calls p h h' e = elim (Option-cases (matinv garbage p.eq p.ei h)) [
    | inl failed ↦ let e' = rw (failed, solve) at e in ground arith
    | inr (between, found) ↦ (between, found, rw (found, solve) at e)
  ]

  sum_of_products-sum :
      IsExact D → (n : ℕ) (a b : ℕ → D) → sum_of_products n a b ≡ sum n 0 (λ k. a k ⊗ b k)
  unfolding sum_of_products
  sum_of_products-sum x n a b = for_range-add x n 0 d.nought (λ k. a k ⊗ b k) ∙ x.zero_add _

  module _ (x : IsExact D) (z : HasExactZero D) (room : (size : ℕ) → length (garbage size) ≡ size)
      (n : ℕ) (many : 3 < n) (small : n * n ≤ 2 ^ 32) (p : Pointers) (apart : Apart p) where
    pub solve-equations :
        (h h' : Memory D)
        → IsSystem D n p h
        → solve garbage p h ≡ some h'
        → (i : ℕ) → i < n
        → sum n 0 (λ k. entry h p.eq i k ⊗ load h' p.co k) ≡ load h p.ac i
    solve-equations h h' s e i hi =
        let (between, inverted, multiplied) = solve-calls p h h' e in
        let v =
          matinv_safe-IsInverse garbage p.eq p.ei h between x z s.eq.old s.ei.old
            (IsSized-IsMat h p.eq n n small s.eq) (IsSized-IsMat h p.ei n n small s.ei) room
            (rw s.eq.rows many) (matinv-matinv_safe garbage p.eq p.ei h between inverted) in
        let column : n * 1 ≤ 2 ^ 32 = grind arith in
        let ei_rows = v.rows ∙ s.ei.rows in
        let ei_cols = v.cols ∙ s.ei.cols in
        let ac = v.others p.ac s.ac.old apart.ac_ei in
        let co = v.others p.co s.co.old (λ e. apart.ei_co (sym e)) in
        let mat_ei : IsMat D between p.ei = record {
          size = rw (ei_rows, ei_cols, v.size) s.ei.size;
          small = rw (ei_rows, ei_cols) small;
        } in
        let mat_ac : IsMat D between p.ac = record {
          size = rw (ac, s.ac.rows, s.ac.cols) s.ac.size;
          small = rw (ac, s.ac.rows, s.ac.cols) column;
        } in
        let mat_co : IsMat D between p.co = record {
          size = rw (co, s.co.rows, s.co.cols) s.co.size;
          small = rw (co, s.co.rows, s.co.cols) column;
        } in
        let given = rw multiplied at (
          matmul-Gives between p.ei p.ac p.co mat_ei mat_ac mat_co apart.ei_co apart.ac_co
            (ei_cols ∙ sym (ap (λ t. t.rows) ac ∙ s.ac.rows))
            (ei_rows ∙ sym (ap (λ t. t.rows) co ∙ s.co.rows))
            (ap (λ t. t.cols) ac ∙ s.ac.cols ∙ sym (ap (λ t. t.cols) co ∙ s.co.cols))) in
        product-solves x n (entry h p.eq) (entry between p.ei) (load h p.ac) (load h' p.co)
          (λ r c hr hc.
            ap (λ t. sum t 0 (λ k. entry h p.eq r k ⊗ entry between p.ei k c)) (sym s.eq.rows)
            ∙ v.identity r c (rw s.eq.rows hr) (rw s.eq.rows hc))
          (λ k hk.
            sym (column_load h' p.co k (given.0.cols ∙ ap (λ t. t.cols) co ∙ s.co.cols))
            ∙ given.1 k 0 (rw (co, s.co.rows) hk) (rw (co, s.co.cols) (omega arith))
            ∙ ap (λ t. sum_of_products t (entry between p.ei k) (λ l. entry between p.ac l 0))
                ei_cols
            ∙ sum_of_products-sum x n (entry between p.ei k) (λ l. entry between p.ac l 0)
            ∙ sum_congr n 0 _ _ (λ l le lt.
              ap (λ t. entry between p.ei k l ⊗ t)
                (column_load between p.ac l (ap (λ t. t.cols) ac ∙ s.ac.cols)
                  ∙ ap (λ t. get_or t.vals l d.nought) ac)))
          i hi
