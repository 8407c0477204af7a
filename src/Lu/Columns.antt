-- ===== src/Lu/Columns.antt =====
-- What the loops of `_lu_decomp_mat` of src/numerical_basics.c do to the entries of the matrix.
use native.Mathlib.Decide.{ℕ_discrete}
use motor_stand.Prelude.{
  ℕ, suc, ◌*◌, ◌^◌, ◌≤◌, ◌<◌, ◌≡◌, ◌≢◌, refl, sym, ap, ◌∙◌, length, length-set, arith,
}
use motor_stand.Prelude.Loops.{for_range_inv}
use motor_stand.Double.{Double}
use motor_stand.Matrix.{Memory, index, load, store}
use motor_stand.Matrix.Store.{load-store_self, load-store_ne, store_at}
use motor_stand.Matrix.Entries.{row_major, index-row_major, row_major-injective}
use motor_stand.Lu.{swap_rows}
use motor_stand.Lu.Rounds.{exchange, exchange_self, exchange_other, exchange_ne}

-- The array of the matrix `m` has `n` rows of `n` entries, whose positions fit 32 bits.
pub record IsSquareArray (D : Type 0) (n m : ℕ) (h : Memory D) : Type 0 where
  pub rows : (h.cell m).rows ≡ n
  pub size : length (h.cell m).vals ≡ n * n
  pub small : n * n ≤ 2 ^ 32

index-injective :
    (n i j r c : ℕ)
    → n * n ≤ 2 ^ 32
    → i < n
    → j < n
    → r < n
    → c < n
    → index n i j ≡ index n r c
    → (i ≡ r) × (j ≡ c)
index-injective n i j r c small hi hj hr hc e =
    row_major-injective n i j r c hj hc
      (sym (index-row_major n n i j hi hj small) ∙ e ∙ index-row_major n n r c hr hc small)

module _ {D : Type 0} ⦃d : Double D⦄ (n m : ℕ) where
  abbrev pub at : Memory D → ℕ → ℕ → D
  at h i j = load h m (index n i j)

  pub IsSquareArray-store :
      (h : Memory D) (pos : ℕ) (v : D)
      → IsSquareArray D n m h
      → IsSquareArray D n m (store m pos v h)
  IsSquareArray-store h pos v s = record {
    rows = ap (λ a. a.rows) (store_at h m pos v) ∙ s.rows;
    size = ap (λ a. length a.vals) (store_at h m pos v) ∙ length-set (h.cell m).vals pos v ∙ s.size;
    small = s.small;
  }

  pub at-store_self :
      (h : Memory D) (i j : ℕ) (v : D)
      → IsSquareArray D n m h
      → i < n
      → j < n
      → at (store m (index n i j) v h) i j ≡ v
  at-store_self h i j v s hi hj =
      let inside = row_major n n i j hi hj in
      load-store_self h m (index n i j) v
        (rw (index-row_major n n i j hi hj s.small, s.size) inside)

  pub at-store_ne :
      (h : Memory D) (i j r c : ℕ) (v : D)
      → IsSquareArray D n m h
      → i < n
      → j < n
      → r < n
      → c < n
      → ¬ ((i ≡ r) × (j ≡ c))
      → at (store m (index n i j) v h) r c ≡ at h r c
  at-store_ne h i j r c v s hi hj hr hc ne =
      load-store_ne h m (index n i j) (index n r c) v
        (λ e. ne (index-injective n i j r c s.small hi hj hr hc e))

  -- The columns below `j` have their rows exchanged, the others are as before.
  record IsSwapped (k p : ℕ) (before : Memory D) (j : ℕ) (h : Memory D) : Type 0 where
    square : IsSquareArray D n m h
    swapped : (r c : ℕ) → r < n → c < n → c < j → at h r c ≡ at before (exchange k p r) c
    left : (r c : ℕ) → r < n → c < n → j ≤ c → at h r c ≡ at before r c

  module _ (k p : ℕ) (hk : k < n) (hp : p < n) (apart : k ≢ p) (before : Memory D)
      (s : IsSquareArray D n m before) where
    abbrev swap_column : ℕ → Memory D → Memory D
    swap_column j h =
        let temp = load h m (index n p j) in
        let h = store m (index n p j) (load h m (index n k j)) h in store m (index n k j) temp h

    -- The column that is swapped.
    swap_entry :
        (j : ℕ) (h : Memory D)
        → j < n
        → IsSwapped k p before j h
        → (r : ℕ) → r < n
        → at (swap_column j h) r j ≡ at before (exchange k p r) j
    swap_entry j h hj v r hr =
        let first = store m (index n p j) (at h k j) h in
        let square_first = IsSquareArray-store h (index n p j) (at h k j) v.square in
        elim (ℕ_discrete r k) [
          | yes above ↦
              rw (above, exchange_self k p)
                (at-store_self first k j (at h p j) square_first hk hj
                  ∙ v.left p j hp hj (omega arith))
          | no low ↦
              at-store_ne first k j r j (at h p j) square_first hk hj hr hj (λ e. low (sym e.0))
              ∙ elim (ℕ_discrete r p) [
                | yes below ↦
                    rw (below, exchange_other k p)
                      (at-store_self h p j (at h k j) v.square hp hj
                        ∙ v.left k j hk hj (omega arith))
                | no apart' ↦ rw (exchange_ne k p r low apart') (
                    at-store_ne h p j r j (at h k j) v.square hp hj hr hj (λ e. apart' (sym e.0))
                    ∙ v.left r j hr hj (omega arith))
              ]
        ]

    swap_column-IsSwapped :
        (j : ℕ) (h : Memory D)
        → j < n
        → IsSwapped k p before j h
        → IsSwapped k p before (suc j) (swap_column j h)
    swap_column-IsSwapped j h hj v =
        let first = store m (index n p j) (at h k j) h in
        let square_first = IsSquareArray-store h (index n p j) (at h k j) v.square in
        record {
          square = IsSquareArray-store first (index n k j) (at h p j) square_first;
          swapped = λ r c hr hc lt. elim (ℕ_discrete c j) [
            | no other ↦
                at-store_ne first k j r c (at h p j) square_first hk hj hr hc (λ e. other (sym e.1))
                ∙ at-store_ne h p j r c (at h k j) v.square hp hj hr hc (λ e. other (sym e.1))
                ∙ v.swapped r c hr hc (omega arith)
            | yes here ↦ rw here (swap_entry j h hj v r hr)
          ];
          left = λ r c hr hc le.
              at-store_ne first k j r c (at h p j) square_first hk hj hr hc (λ e. omega arith)
              ∙ at-store_ne h p j r c (at h k j) v.square hp hj hr hc (λ e. omega arith)
              ∙ v.left r c hr hc (omega arith);
        }

    pub swap_rows-exchange :
        IsSquareArray D n m (swap_rows m n p k before)
        × ((r c : ℕ)
            → r < n
            → c < n
            → at (swap_rows m n p k before) r c ≡ at before (exchange k p r) c)
    unfolding swap_rows
    swap_rows-exchange =
        let v =
          for_range_inv (IsSwapped k p before) swap_column n swap_column-IsSwapped n 0 before
            (omega arith)
            (record {
              square = s;
              swapped = λ r c hr hc lt. absurd (omega arith);
              left = λ r c hr hc le. refl;
            }) in
        (v.square, λ r c hr hc. v.swapped r c hr hc hc)
