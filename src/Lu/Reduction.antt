-- ===== src/Lu/Reduction.antt =====
-- A round of `_lu_decomp_mat` of src/numerical_basics.c on the entries of the matrix, and what later rounds
-- leave of it.
use motor_stand.Prelude.{
  ℕ, zero, suc, ◌+◌, ◌≤◌, ◌<◌, ◌≡◌, ◌≢◌, refl, sym, ap, ap₂, ◌∙◌, inl, inr, false, some,
  Option-cases, Bool-cases, ◌==◌, ==_iff, get_or, get_or-set_ne, length, length-set, arith,
}
use motor_stand.Double.{Double, ◌⊖◌, ◌⊗◌, ◌⊘◌}
use motor_stand.Matrix.{Memory}
use motor_stand.Lu.{Work, find_pivot, pivoted, decompose_column, decompose_from, eliminate}
use motor_stand.Lu.Pivots.{find_pivot-bounds, decompose_column-indx}
use motor_stand.Lu.Rounds.{exchange, exchange_self, exchange_ne}
use motor_stand.Lu.Columns.{IsSquareArray, at, swap_rows-exchange}
use motor_stand.Lu.Elimination.{target_left, target_pivot, target_right, eliminate-target}

exchange_same : (k i : ℕ) → exchange k k i ≡ i
exchange_same k i = ground arith

module _ {D : Type 0} ⦃d : Double D⦄ (n m : ℕ) where
  -- The round takes the entries of `before` to those of `after`, with row `p` as the pivot.
  pub record IsReduced (k p : ℕ) (before after : Memory D) : Type 0 where
    pub square : IsSquareArray D n m after
    pub kept : (r c : ℕ) → r ≤ k → c < n → at n m after r c ≡ at n m before (exchange k p r) c
    pub factors :
        (r c : ℕ) → k < r → r < n → c < k → at n m after r c ≡ at n m before (exchange k p r) c
    pub factor :
        (r : ℕ)
        → k < r
        → r < n
        → at n m after r k ≡ at n m before (exchange k p r) k ⊘ at n m before p k
    pub reduced :
        (r c : ℕ)
        → k < r
        → r < n
        → k < c
        → c < n
        → at n m after r c ≡ at n m before (exchange k p r) c ⊖ at n m after r k ⊗ at n m before p c
    pub pivot : d.eq (at n m before p k) d.nought ≡ false

  pivoted-exchange :
      (k p : ℕ) (w : Work D)
      → k < n
      → p < n
      → IsSquareArray D n m w.memory
      → IsSquareArray D n m (pivoted m n k p w).memory
        × ((r c : ℕ)
            → r < n
            → c < n
            → at n m (pivoted m n k p w).memory r c ≡ at n m w.memory (exchange k p r) c)
  unfolding pivoted
  pivoted-exchange k p w hk hp s = elim (Bool-cases (k == p)) [
    | inl same ↦
        let e = (==_iff k p).0 same in rw same (s, λ r c hr hc. rw (← e, exchange_same k r) refl)
    | inr other ↦
        let apart : k ≢ p = λ e. ground arith in
        rw other (swap_rows-exchange n m k p hk hp apart w.memory s)
  ]

  abbrev pub pivot_of : Work D → ℕ → ℕ
  pivot_of w k = (find_pivot w m n k).imax

  decompose_column-parts :
      (k : ℕ) (w w' : Work D)
      → decompose_column m n k w ≡ some w'
      → (w'.memory ≡ eliminate m n k (pivoted m n k (pivot_of w k) w).memory)
        × (d.eq (at n m (pivoted m n k (pivot_of w k) w).memory k k) d.nought ≡ false)
  unfolding decompose_column
  decompose_column-parts k w w' h =
      let noted = pivoted m n k (pivot_of w k) w in
      elim (Bool-cases (d.eq (at n m noted.memory k k) d.nought)) [
        | inl zero_pivot ↦ let h' = rw zero_pivot at h in ground arith
        | inr pivot ↦
            let h' : some (record noted { memory = eliminate m n k noted.memory }) ≡ some w' =
              rw pivot at h in
            let same : record noted { memory = eliminate m n k noted.memory } ≡ w' = ground arith in
            (ap (λ v. v.memory) (sym same), pivot)
      ]

  pub decompose_column-IsReduced :
      (k : ℕ) (w w' : Work D)
      → k < n
      → IsSquareArray D n m w.memory
      → decompose_column m n k w ≡ some w'
      → IsReduced k (pivot_of w k) w.memory w'.memory
  decompose_column-IsReduced k w w' hk s h =
      let p = pivot_of w k in
      let (kp, hp) = find_pivot-bounds m n w k hk in
      let (square, swapped) = pivoted-exchange k p w hk hp s in
      let noted = (pivoted m n k p w).memory in
      let (memory, nonzero) = decompose_column-parts k w w' h in
      let (after, upper, lower) = eliminate-target n m k hk noted square in
      let pivot : (c : ℕ) → c < n → at n m noted k c ≡ at n m w.memory p c =
        λ c hc. swapped k c hk hc ∙ ap (λ r. at n m w.memory r c) (exchange_self k p) in
      rw memory (record {
        square = after;
        kept = λ r c hr hc. upper r c hr hc ∙ swapped r c (omega arith) hc;
        factors = λ r c kr hr hc.
            lower r c kr hr (omega arith)
            ∙ target_left n m k hk noted r c hc
            ∙ swapped r c hr (omega arith);
        factor = λ r kr hr.
            lower r k kr hr hk
            ∙ target_pivot n m k hk noted r
            ∙ ap₂ (λ a b. a ⊘ b) (swapped r k hr hk) (pivot k hk);
        reduced = λ r c kr hr kc hc.
            lower r c kr hr hc
            ∙ target_right n m k hk noted r c kc
            ∙ ap₂ (λ a b. a ⊖ b) (swapped r c hr hc)
                (ap₂ (λ a b. a ⊗ b) (sym (lower r k kr hr hk ∙ target_pivot n m k hk noted r))
                  (pivot c hc));
        pivot = ap (λ t. d.eq t d.nought) (sym (pivot k hk)) ∙ nonzero;
      })

  -- What the rounds from `k` on leave as it was: the rows above, and their pivots.
  pub record IsLater (k : ℕ) (w w' : Work D) : Type 0 where
    pub square : IsSquareArray D n m w'.memory
    pub rows : (r c : ℕ) → r < k → r < n → c < n → at n m w'.memory r c ≡ at n m w.memory r c
    pub pivots : (i : ℕ) → i < k → get_or w'.indx i 0 ≡ get_or w.indx i 0
    pub size : length w'.indx ≡ length w.indx

  -- A decomposition that succeeds is a round that does, and the others.
  pub decompose_from-next :
      (c k : ℕ) (w last : Work D)
      → decompose_from m n (suc c) k w ≡ some last
      → (after : Work D) × (decompose_column m n k w ≡ some after)
        × (decompose_from m n c (k + 1) after ≡ some last)
  unfolding decompose_from
  decompose_from-next c k w last h = elim (Option-cases (decompose_column m n k w)) [
    | inl failed ↦ let h' = rw (failed, decompose_from) at h in ground arith
    | inr (after, found) ↦ (after, found, rw (found, decompose_from) at h)
  ]

  pub decompose_from-IsLater :
      (c k : ℕ) (w w' : Work D)
      → k + c ≡ n
      → IsSquareArray D n m w.memory
      → decompose_from m n c k w ≡ some w'
      → IsLater k w w'
  unfolding decompose_from
  decompose_from-IsLater zero k w w' e s h =
      let same : w ≡ w' = ground arith in
      rw (← same)
        (record { square = s; rows = λ r c hr rn hc. refl; pivots = λ i lt. refl; size = refl })
  decompose_from-IsLater (suc c) k w w' e s h =
      let (next, found, rest) = decompose_from-next c k w w' h in
      let round = decompose_column-IsReduced k w next (omega arith) s found in
      let later = decompose_from-IsLater c (k + 1) next w' (omega arith) round.square rest in
      let p = pivot_of w k in
      let indx = decompose_column-indx m n k w next found in
      let above = (find_pivot-bounds m n w k (omega arith)).0 in
      record {
        square = later.square;
        rows = λ r c hr rn hc.
            later.rows r c (omega arith) rn hc
            ∙ round.kept r c (omega arith) hc
            ∙ ap (λ t. at n m w.memory t c)
                (exchange_ne k p r (λ e. omega arith) (λ e. omega arith));
        pivots = λ i lt.
            later.pivots i (omega arith)
            ∙ ap (λ t. get_or t i 0) indx
            ∙ get_or-set_ne w.indx k i p 0 (λ e. omega arith);
        size = later.size ∙ ap length indx ∙ length-set w.indx k p;
      }
