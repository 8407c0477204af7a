-- ===== src/Lu/Rounds.antt =====
-- The rounds of `_lu_decomp_mat` of src/numerical_basics.c next to those of the forward substitution of
-- `_solve_mat`, on the entries of the matrix: in exact arithmetic they keep what the unknowns solve.
use motor_stand.Prelude.{
  ℕ, zero, suc, ◌+◌, ◌-◌, ◌≤◌, ◌<◌, ◌≡◌, ◌≢◌, sym, ap, ap₂, ◌∙◌, if◌then◌else◌, ◌==◌, arith,
}
use native.Mathlib.Decide.{ℕ_discrete}
use motor_stand.Double.{Double, ◌⊕◌, ◌⊖◌, ◌⊗◌}
use motor_stand.Double.Exact.{IsExact}
use motor_stand.Double.Sums.{sum, sum_congr, sum_last, sum_reduce}

-- Rows `k` and `p` exchanged.
abbrev pub exchange : ℕ → ℕ → ℕ → ℕ
exchange k p i = if i == k then p else if i == p then k else i

pub exchange-exchange : (k p i : ℕ) → exchange k p (exchange k p i) ≡ i
exchange-exchange k p i = ground arith

pub exchange_self : (k p : ℕ) → exchange k p k ≡ p
exchange_self k p = ground arith

pub exchange_other : (k p : ℕ) → exchange k p p ≡ k
exchange_other k p = ground arith

pub exchange_ne : (k p i : ℕ) → i ≢ k → i ≢ p → exchange k p i ≡ i
exchange_ne k p i h h' = ground arith

pub exchange-bounds :
    (n k p i : ℕ) → k ≤ p → p < n → k ≤ i → i < n → (k ≤ exchange k p i) × (exchange k p i < n)
exchange-bounds n k p i kp pn ki lt = ground arith

module _ (D : Type 0) ⦃d : Double D⦄ (n : ℕ) (final : ℕ → ℕ → D) (y : ℕ → D) where
  -- Round `k` takes the entries `before` to `after` and the right sides `left` to `right`; `final` has the
  -- entries in the end, and `y` the results of the forward substitution.
  pub record Round (k p : ℕ) (before after : ℕ → ℕ → D) (left right : ℕ → D) : Type 0 where
    pub pivot_above : k ≤ p
    pub pivot_below : p < n
    pub kept : (i j : ℕ) → i ≤ k → j < n → after i j ≡ before (exchange k p i) j
    pub factors : (i j : ℕ) → k < i → i < n → j < k → after i j ≡ before (exchange k p i) j
    pub factor : (i : ℕ) → k < i → i < n → after i k ⊗ before p k ≡ before (exchange k p i) k
    pub reduced :
        (i j : ℕ)
        → k < i
        → i < n
        → k < j
        → j < n
        → after i j ≡ before (exchange k p i) j ⊖ after i k ⊗ before p j
    pub moved : (i : ℕ) → k < i → i < n → right i ≡ left (exchange k p i)
    pub solved : y k ⊕ sum k 0 (λ c. after k c ⊗ y c) ≡ left p
    pub last : (j : ℕ) → j < n → final k j ≡ after k j

  -- The rounds from `k` on, `c` of them.
  pub data Rounds : ℕ → ℕ → (ℕ → ℕ → D) → (ℕ → D) → Type 0 where
    done : (k : ℕ) (entries : ℕ → ℕ → D) (sides : ℕ → D) → Rounds 0 k entries sides
    next :
        (c k p : ℕ) (before after : ℕ → ℕ → D) (left right : ℕ → D)
        → Round k p before after left right
        → Rounds c (k + 1) after right
        → Rounds (suc c) k before left

  module _ (z : ℕ → D) where
    -- The unknowns solve the upper triangle.
    abbrev pub Solves : Type 0
    Solves = (i : ℕ) → i < n → sum (n - i) i (λ j. final i j ⊗ z j) ≡ y i

    -- Row `i`, with the results of the substitution in its first `k` columns and unknowns in the others.
    abbrev pub row : (ℕ → ℕ → D) → ℕ → ℕ → D
    row entries k i = sum k 0 (λ c. entries i c ⊗ y c) ⊕ sum (n - k) k (λ j. entries i j ⊗ z j)

    abbrev pub Holds : ℕ → (ℕ → ℕ → D) → (ℕ → D) → Type 0
    Holds k entries sides = (i : ℕ) → k ≤ i → i < n → row entries k i ≡ sides i

module _ {D : Type 0} ⦃d : Double D⦄ (x : IsExact D) (n : ℕ) (final : ℕ → ℕ → D) (y z : ℕ → D)
    (solves : Solves D n final y z) where
  module _ (k p : ℕ) (before after : ℕ → ℕ → D) (left right : ℕ → D)
      (r : Round D n final y k p before after left right) where
    pivot_entry : (j : ℕ) → j < n → after k j ≡ before p j
    pivot_entry j lt = r.kept k j (omega arith) lt ∙ ap (λ t. before t j) (exchange_self k p)

    -- What the unknowns give for the pivot row.
    pivot_row : sum (n - k) k (λ j. before p j ⊗ z j) ≡ y k
    pivot_row =
        let bound : k < n = omega (arith, r.pivot_above, r.pivot_below) in
        sum_congr (n - k) k _ _ (λ j le lt.
          ap (λ t. t ⊗ z j) (sym (r.last j (omega arith) ∙ pivot_entry j (omega arith))))
        ∙ solves k bound

    -- The same without its first term.
    pivot_rest : y k ≡ before p k ⊗ z k ⊕ sum (n - (k + 1)) (k + 1) (λ j. before p j ⊗ z j)
    pivot_rest =
        let count : n - k ≡ suc (n - (k + 1)) = omega (arith, r.pivot_above, r.pivot_below) in
        sym pivot_row ∙ ap (λ c. sum c k (λ j. before p j ⊗ z j)) count

    -- The equation of the pivot row.
    pivot-Holds : row D n final y z before k p ≡ left p
    pivot-Holds =
        ap₂ (λ a b. a ⊕ b)
          (sum_congr k 0 _ _ (λ c le lt.
            ap (λ t. t ⊗ y c) (sym (pivot_entry c (omega (arith, r.pivot_above, r.pivot_below))))))
          pivot_row
        ∙ x.add_comm _ (y k)
        ∙ r.solved

    -- A multiple of the pivot row, put together with the reduced row.
    unreduced :
        (i : ℕ)
        → k < i
        → i < n
        → after i k ⊗ y k ⊕ sum (n - (k + 1)) (k + 1) (λ j. after i j ⊗ z j)
          ≡ sum (n - k) k (λ j. before (exchange k p i) j ⊗ z j)
    unreduced i ki lt =
        let l = after i k in
        let q = λ (j : ℕ). before (exchange k p i) j in
        let rest = n - (k + 1) in
        let count : suc rest ≡ n - k = omega arith in
        ap (λ t. t ⊕ sum rest (k + 1) (λ j. after i j ⊗ z j))
          (ap (λ t. l ⊗ t) pivot_rest ∙ x.mul_add l _ _)
        ∙ x.add_assoc _ _ _
        ∙ ap₂ (λ a b. a ⊕ b)
            (sym (x.mul_assoc l (before p k) (z k)) ∙ ap (λ t. t ⊗ z k) (r.factor i ki lt))
            (x.add_comm _ _
              ∙ ap (λ t. t ⊕ l ⊗ sum rest (k + 1) (λ j. before p j ⊗ z j))
                  (sum_congr rest (k + 1) _ _ (λ j le lt'.
                    ap (λ t. t ⊗ z j) (r.reduced i j ki lt (omega arith) (omega arith))))
              ∙ sum_reduce x rest (k + 1) l q (before p) z)
        ∙ ap (λ c. sum c k (λ j. q j ⊗ z j)) count

    -- The equation of a row below it, given that of the reduced row.
    below-Holds :
        (i : ℕ)
        → k < i
        → i < n
        → row D n final y z after (k + 1) i ≡ right i
        → row D n final y z before k (exchange k p i) ≡ left (exchange k p i)
    below-Holds i ki lt h =
        let count : suc k ≡ k + 1 = omega arith in
        let known = sum k 0 (λ c. after i c ⊗ y c) in
        ap₂ (λ a b. a ⊕ b)
          (sum_congr k 0 _ _
            (λ c le lt'. ap (λ t. t ⊗ y c) (sym (r.factors i c ki lt (omega arith)))))
          (sym (unreduced i ki lt))
        ∙ sym (x.add_assoc known _ _)
        ∙ ap (λ t. t ⊕ sum (n - (k + 1)) (k + 1) (λ j. after i j ⊗ z j))
            (sym (sum_last x k 0 k (λ c. after i c ⊗ y c) (omega arith))
              ∙ ap (λ c. sum c 0 (λ c. after i c ⊗ y c)) count)
        ∙ h
        ∙ r.moved i ki lt

    -- The equations behind the round give those before it.
    round-Holds : Holds D n final y z (k + 1) after right → Holds D n final y z k before left
    round-Holds holds i ki lt = elim (ℕ_discrete i p) [
      | yes at ↦ rw at pivot-Holds
      | no other ↦
          let (above, below) = exchange-bounds n k p i r.pivot_above r.pivot_below ki lt in
          let j = exchange k p i in
          let back = exchange-exchange k p i in
          let apart : j ≢ k = λ e. other (sym back ∙ ap (exchange k p) e ∙ exchange_self k p) in
          rw back at (below-Holds j (omega arith) below (holds j (omega arith) below))
    ]

  -- The equations of the first round hold, once those behind the last one do.
  pub Rounds-Holds :
      (c k : ℕ) (before : ℕ → ℕ → D) (left : ℕ → D)
      → k + c ≡ n
      → Rounds D n final y c k before left
      → Holds D n final y z k before left
  Rounds-Holds zero k before left e (done _ _ _) = λ i ki lt. absurd (omega arith)
  Rounds-Holds (suc c) k before left e (next _ _ p _ after _ right r rs) =
      round-Holds k p before after left right r
        (Rounds-Holds c (k + 1) after right (omega arith) rs)
