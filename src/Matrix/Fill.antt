-- ===== src/Matrix/Fill.antt =====
-- The rule for the loops of src/numerical_basics.c that write each cell of a matrix once. A cell may be
-- read as long as it was not written, also where the matrix that is written is an argument as well.
use native.Mathlib.Decide.{ℕ_discrete}
use motor_stand.Prelude.{ℕ, suc, ◌<◌, ◌≡◌, refl, sym, ◌∙◌, ◌⊎◌, inl, inr, arith, length}
use motor_stand.Prelude.Loops.{for_range, for_range_inv}
use motor_stand.Double.{Double}
use motor_stand.Matrix.{Memory, load, store, for_cells}
use motor_stand.Matrix.Store.{load-store_self, load-store_ne, Same, Same-refl, Same-store}

-- The round at `(i, j)` comes before the one at `(m, n)`.
abbrev Before : ℕ → ℕ → ℕ → ℕ → Type 0
Before i j m n = (i < m) ⊎ ((i ≡ m) × (j < n))

Before-next : (i j m n : ℕ) → Before i j m (suc n) → ((i ≡ m) × (j ≡ n)) ⊎ Before i j m n
Before-next i j m n (inl lt) = inr (inl lt)
Before-next i j m n (inr (e, lt)) = elim (ℕ_discrete j n) [
  | yes e' ↦ inl (e, e')
  | no ne ↦ inr (inr (e, omega arith))
]

Before-later : (i j m n : ℕ) → Before i j m n → Before i j m (suc n)
Before-later i j m n (inl lt) = inl lt
Before-later i j m n (inr (e, lt)) = inr (e, omega arith)

-- The end of a row is the start of the next one.
Before-row : (i j m cols : ℕ) → j < cols → Before i j (suc m) 0 → Before i j m cols
Before-row i j m cols hj (inl lt) = elim (ℕ_discrete i m) [
  | yes e ↦ inr (e, hj)
  | no ne ↦ inl (omega arith)
]
Before-row i j m cols hj (inr (e, lt)) = absurd (omega arith)

row-Before : (i j m cols : ℕ) → Before i j m cols → Before i j (suc m) 0
row-Before i j m cols (inl lt) = inl (omega arith)
row-Before i j m cols (inr (e, lt)) = inl (omega arith)

module _ {D : Type 0} ⦃d : Double D⦄ (rows cols res : ℕ) (h₀ : Memory D) where
  -- The round at `(m, n)` writes its value to `position m n`; `wanted` is what that value should be.
  module _ (position : ℕ → ℕ → ℕ) (value : ℕ → ℕ → Memory D → D) (wanted : ℕ → ℕ → D) where
    -- The positions lie in the array and are all different, and each value is the wanted one as long as
    -- its own cell was not written.
    pub record Writes : Type 0 where
      pub inside : (m n : ℕ) → m < rows → n < cols → position m n < length (h₀.cell res).vals
      pub injective :
          (m n i j : ℕ)
          → m < rows
          → n < cols
          → i < rows
          → j < cols
          → position m n ≡ position i j
          → (m ≡ i) × (n ≡ j)
      pub sound :
          (m n : ℕ) (h : Memory D)
          → m < rows
          → n < cols
          → Same D res h₀ h
          → load h res (position m n) ≡ load h₀ res (position m n)
          → value m n h ≡ wanted m n

    record Inv (m n : ℕ) (h : Memory D) : Type 0 where
      same : Same D res h₀ h
      done :
          (i j : ℕ) → i < rows → j < cols → Before i j m n → load h res (position i j) ≡ wanted i j
      left :
          (i j : ℕ)
          → i < rows
          → j < cols
          → ¬ Before i j m n
          → load h res (position i j) ≡ load h₀ res (position i j)

    -- What the loops leave in memory.
    pub record Filled (h : Memory D) : Type 0 where
      pub same : Same D res h₀ h
      pub cells : (i j : ℕ) → i < rows → j < cols → load h res (position i j) ≡ wanted i j

    module _ (w : Writes) where
      elsewhere :
          (m n i j : ℕ) (h : Memory D)
          → m < rows
          → n < cols
          → i < rows
          → j < cols
          → ¬ ((m ≡ i) × (n ≡ j))
          → load (store res (position m n) (value m n h) h) res (position i j)
            ≡ load h res (position i j)
      elsewhere m n i j h hm hn hi hj ne =
          load-store_ne h res (position m n) (position i j) (value m n h)
            (λ e. ne (w.injective m n i j hm hn hi hj e))

      here :
          (m n : ℕ) (h : Memory D)
          → m < rows
          → n < cols
          → Inv m n h
          → load (store res (position m n) (value m n h) h) res (position m n) ≡ wanted m n
      here m n h hm hn inv =
          load-store_self h res (position m n) (value m n h) (rw inv.same.size (w.inside m n hm hn))
          ∙ w.sound m n h hm hn inv.same (inv.left m n hm hn (λ b. omega arith))

      one_write :
          (m n : ℕ) (h : Memory D)
          → m < rows
          → n < cols
          → Inv m n h
          → Inv m (suc n) (store res (position m n) (value m n h) h)
      one_write m n h hm hn inv = record {
        same = Same-store (position m n) (value m n h) inv.same;
        done = λ i j hi hj b. elim (Before-next i j m n b) [
          | inl (ei, ej) ↦ rw (ei, ej) (here m n h hm hn inv)
          | inr earlier ↦
              elsewhere m n i j h hm hn hi hj (λ e. omega arith) ∙ inv.done i j hi hj earlier
        ];
        left = λ i j hi hj nb.
            elsewhere m n i j h hm hn hi hj (λ e. nb (inr (sym e.0, omega arith)))
            ∙ inv.left i j hi hj (λ b. nb (Before-later i j m n b));
      }

      one_row :
          (m : ℕ) (h : Memory D)
          → m < rows
          → Inv m 0 h
          → Inv (suc m) 0 (for_range cols 0 (λ n h. store res (position m n) (value m n h) h) h)
      one_row m h hm inv =
          let ended =
            for_range_inv (λ n h. Inv m n h) (λ n h. store res (position m n) (value m n h) h) cols
              (λ n h hn i. one_write m n h hm hn i) cols 0 h (omega arith) inv in
          record {
            same = ended.same;
            done = λ i j hi hj b. ended.done i j hi hj (Before-row i j m cols hj b);
            left = λ i j hi hj nb. ended.left i j hi hj (λ b. nb (row-Before i j m cols b));
          }

      pub for_cells-Filled :
          Filled (for_cells rows cols (λ m n h. store res (position m n) (value m n h) h) h₀)
      unfolding for_cells
      for_cells-Filled =
          let first : Inv 0 0 h₀ = record {
            same = Same-refl res h₀;
            done = λ i j hi hj b. absurd (omega arith);
            left = λ i j hi hj nb. refl;
          } in
          let ended =
            for_range_inv (λ m h. Inv m 0 h)
              (λ m. for_range cols 0 (λ n h. store res (position m n) (value m n h) h)) rows one_row
              rows 0 h₀ (omega arith) first in
          record { same = ended.same; cells = λ i j hi hj. ended.done i j hi hj (inl hi) }
