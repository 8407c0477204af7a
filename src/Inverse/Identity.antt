-- ===== src/Inverse/Identity.antt =====
-- `matinv_safe` of src/numerical_basics.c gives the inverse of a matrix of more than three rows.
use motor_stand.Prelude.{
  ℕ, ◌*◌, ◌≤◌, ◌<◌, ◌≡◌, ◌≢◌, refl, sym, ap, ◌∙◌, inl, inr, true, false, not, ◌&&◌, some, List,
  if◌then◌else◌, ◌⊎◌, ◌==◌, ==_refl, Bool-cases, length, length-replicate, replicate, arith,
}
use motor_stand.Prelude.Loops.{for_range}
use motor_stand.Double.{Double, ◌⊗◌}
use motor_stand.Double.Exact.{IsExact, HasExactZero}
use motor_stand.Double.Sums.{sum, sum_congr}
use motor_stand.Matrix.{Memory, same_shape, alloc_mat, matidn}
use motor_stand.Matrix.Store.{Same}
use motor_stand.Matrix.Entries.{IsMat, SameShape, entry, IsMat-Same}
use motor_stand.Matrix.Elementwise.{matidn-Gives}
use motor_stand.Lu.Substitution.{side}
use motor_stand.Lu.{solve_mat, lu_decomp_mat, Outcome, aborted, singular, decomposed, Work}
use motor_stand.Lu.Columns.{IsSquareArray, at}
use motor_stand.Lu.Equations.{lu_decomp_mat-solves, square_array}
use motor_stand.Lu.Others.{lu_decomp_mat-Same}
use motor_stand.Inverse.{solve_column, dalloc_mat, inverse_lu, matinv_safe}
use motor_stand.Inverse.Columns.{IsSolved, solve_columns-IsSolved}

-- The result `ainv` is a right inverse of `a` and has the shape that it had, and nothing else is changed.
pub record IsInverse (D : Type 0) ⦃d : Double D⦄ (a ainv : ℕ) (h h' : Memory D) : Type 0 where
  pub others : (q : ℕ) → q < h.next → q ≢ ainv → h'.cell q ≡ h.cell q
  pub rows : (h'.cell ainv).rows ≡ (h.cell ainv).rows
  pub cols : (h'.cell ainv).cols ≡ (h.cell ainv).cols
  pub size : length (h'.cell ainv).vals ≡ length (h.cell ainv).vals
  pub identity :
      (i j : ℕ)
      → i < (h.cell a).rows
      → j < (h.cell a).rows
      → sum (h.cell a).rows 0 (λ k. entry h a i k ⊗ entry h' ainv k j)
        ≡ (if i == j then d.unit else d.nought)

module _ {D : Type 0} ⦃d : Double D⦄ where
  Outcome-cases :
      (o : Outcome D) → (o ≡ aborted) ⊎ ((o ≡ singular) ⊎ ((w : Work D) × (o ≡ decomposed w)))
  Outcome-cases aborted = inl refl
  Outcome-cases singular = inr (inl refl)
  Outcome-cases (decomposed w) = inr (inr (w, refl))

  module _ (garbage : ℕ → List D) (a ainv : ℕ) (h : Memory D) where
    abbrev rows : ℕ
    rows = (h.cell a).rows

    -- The memory with the matrix for the decomposition.
    abbrev allocated : Memory D
    allocated = (alloc_mat rows (h.cell a).cols (garbage (rows * (h.cell a).cols)) h).1

    -- The decomposition in `matinv_safe` succeeded.
    inverse_lu-decomposed :
        (h' : Memory D)
        → inverse_lu garbage a ainv h ≡ some (true, h')
        → (w : Work D) × (lu_decomp_mat a h.next (replicate rows 0) allocated ≡ decomposed w)
          × (for_range rows 0 (solve_column ainv h.next w.indx rows) (matidn ainv w.memory) ≡ h')
    unfolding inverse_lu dalloc_mat alloc_mat
    inverse_lu-decomposed h' e =
        elim (Outcome-cases (lu_decomp_mat a h.next (replicate rows 0) allocated)) [
          | inl failed ↦ let e' = rw (failed, inverse_lu) at e in ground arith
          | inr (inl failed) ↦ let e' = rw (failed, inverse_lu) at e in ground arith
          | inr (inr (w, found)) ↦ let e' = rw (found, inverse_lu) at e in (w, found, ground arith)
        ]

    allocated_old : (q : ℕ) → q < h.next → allocated.cell q ≡ h.cell q
    unfolding alloc_mat
    allocated_old q lt = let e : (h.next == q) ≡ false = ground arith in rw e refl

    module _ (apart : a ≢ ainv) (old : a < h.next) (old' : ainv < h.next)
        (room : length (garbage (rows * (h.cell a).cols)) ≡ rows * (h.cell a).cols)
        (va : IsMat D h a) (vi : IsMat D h ainv) (square : rows ≡ (h.cell a).cols)
        (shape : SameShape D h a ainv) where
      allocated-IsMat : IsMat D allocated h.next
      unfolding alloc_mat
      allocated-IsMat = record {
        size = rw (==_refl h.next) room;
        small = rw (==_refl h.next) va.small;
      }

      module _ (w : Work D)
          (found : lu_decomp_mat a h.next (replicate rows 0) allocated ≡ decomposed w) where
        decomposed_old : (q : ℕ) → q < h.next → w.memory.cell q ≡ h.cell q
        decomposed_old q lt =
            (lu_decomp_mat-Same a h.next (replicate rows 0) allocated w allocated-IsMat
                (λ e. omega arith) found).others
              q (λ e. omega arith)
            ∙ allocated_old q lt

        decomposed-solves :
            IsExact D
            → HasExactZero D
            → (b : List D) → length b ≡ rows
            → (i : ℕ) → i < rows
            → sum rows 0 (λ k. entry h a i k ⊗ side (solve_mat w.memory h.next w.indx b) k)
              ≡ side b i
        decomposed-solves x z b size i hi =
            let e = allocated_old a old in
            let whole : rows ≤ rows = omega arith in
            let solved =
              lu_decomp_mat-solves x z a h.next (replicate rows 0) allocated w b
                (record { size = rw e va.size; small = rw e va.small }) allocated-IsMat
                (rw (e, length-replicate {A = ℕ} rows 0) whole) found (rw e size) i (rw e hi) in
            rw e at solved

        -- The identity matrix before the columns are solved.
        identity_start :
            (apart' : h.next ≢ ainv)
            (solves : (b : List D)
              → length b ≡ rows
              → (i : ℕ) → i < rows
              → sum rows 0 (λ k. entry h a i k ⊗ side (solve_mat w.memory h.next w.indx b) k)
                ≡ side b i)
            → IsSolved rows ainv h.next w.indx w.memory
                (entry h a)
                (λ i j. if i == j then d.unit else d.nought)
                apart'
                solves
                0
                (matidn ainv w.memory)
        identity_start apart' solves =
            let e = decomposed_old ainv old' in
            let v : IsMat D w.memory ainv = record { size = rw e vi.size; small = rw e vi.small } in
            let (same, entries) = matidn-Gives w.memory ainv v in
            let er = same.rows ∙ ap (λ t. t.rows) e ∙ sym shape.rows in
            let ec = same.cols ∙ ap (λ t. t.cols) e ∙ sym shape.cols ∙ sym square in
            let (array, at_entries) =
              square_array (matidn ainv w.memory) ainv rows (IsMat-Same ainv same v) er ec in
            record {
              square = array;
              same = same;
              done = λ i c hi hc lt. absurd (omega arith);
              left = λ i c hi hc le.
                  at_entries i c hi hc
                  ∙ entries i c (rw (← same.rows, er) hi) (rw (← same.cols, ec) hc);
            }

      inverse_lu-IsInverse :
          IsExact D
          → HasExactZero D
          → (h' : Memory D) → inverse_lu garbage a ainv h ≡ some (true, h')
          → IsInverse D a ainv h h'
      inverse_lu-IsInverse x z h' e =
          let (w, found, ended) = inverse_lu-decomposed h' e in
          let apart' : h.next ≢ ainv = λ e. omega arith in
          let solves = decomposed-solves w found x z in
          let last =
            solve_columns-IsSolved rows ainv h.next w.indx w.memory (entry h a) _ apart' solves
              (matidn ainv w.memory) (identity_start w found apart' solves) in
          let same : Same D ainv w.memory h' = rw ended at last.same in
          let old_inverse = decomposed_old w found ainv old' in
          let cols = same.cols ∙ ap (λ t. t.cols) old_inverse ∙ sym shape.cols ∙ sym square in
          let array : IsSquareArray D rows ainv h' = rw ended at last.square in
          let v : IsMat D h' ainv = record {
            size = rw (array.rows, cols) array.size;
            small = rw (array.rows, cols) array.small;
          } in
          let (_, at_entries) = square_array h' ainv rows v array.rows cols in
          record {
            others = λ q lt ne. same.others q ne ∙ decomposed_old w found q lt;
            rows = same.rows ∙ ap (λ t. t.rows) old_inverse;
            cols = same.cols ∙ ap (λ t. t.cols) old_inverse;
            size = same.size ∙ ap (λ t. length t.vals) old_inverse;
            identity = λ i j hi hj.
                sum_congr rows 0 _ _
                  (λ k le lt. ap (λ t. entry h a i k ⊗ t) (sym (at_entries k j (omega arith) hj)))
                ∙ ap (λ g. sum rows 0 (λ k. entry h a i k ⊗ at rows ainv g k j)) (sym ended)
                ∙ last.done i j hi hj hj;
          }

  -- In exact arithmetic, where only zero compares equal to 0.0, with malloc returning blocks of the size
  -- asked for: if matinv_safe succeeds on a matrix of more than three rows, where both matrices were
  -- allocated and have room for their entries, at most 2^32, then the result is a right inverse of the
  -- matrix: the products of its rows with the columns of the result are the entries of the identity matrix.
  -- The result keeps its shape, and no other matrix that was there is changed.
  pub matinv_safe-IsInverse :
      (garbage : ℕ → List D) (a ainv : ℕ) (h h' : Memory D)
      → IsExact D
      → HasExactZero D
      → a < h.next
      → ainv < h.next
      → IsMat D h a
      → IsMat D h ainv
      → ((size : ℕ) → length (garbage size) ≡ size)
      → 3 < (h.cell a).rows
      → matinv_safe garbage a ainv h ≡ some (true, h')
      → IsInverse D a ainv h h'
  unfolding matinv_safe
  matinv_safe-IsInverse garbage a ainv h h' x z old old' va vi room big e =
      let n = (h.cell a).rows in
      let not_1 : (n == 1) ≡ false = ground arith in
      let not_2 : (n == 2) ≡ false = ground arith in
      let not_3 : (n == 3) ≡ false = ground arith in
      elim (Bool-cases (same_shape h a ainv && not (a == ainv) && n == (h.cell a).cols)) [
        | inr refused ↦ let e' = rw (refused, matinv_safe) at e in ground arith
        | inl admitted ↦
            let apart : a ≢ ainv = λ same. ground arith in
            let shape : SameShape D h a ainv = record {
              rows = ground arith;
              cols = ground arith;
            } in
            let square : n ≡ (h.cell a).cols = ground arith in
            inverse_lu-IsInverse garbage a ainv h apart old old' (room _) va vi square shape x z h'
              (rw (admitted, not_1, not_2, not_3, matinv_safe) at e)
      ]
