-- ===== src/LeastSquares/Moments.antt =====
-- The loops of `least_squares_filter` of src/method_of_least_squares.c that add up the normal equations.
use native.Mathlib.Decide.{ℕ_discrete}
use motor_stand.Prelude.{
  ℕ, zero, suc, ◌+◌, ◌*◌, ◌<◌, ◌≡◌, ◌≢◌, refl, sym, ap, ◌∙◌, ◌&&◌, ◌||◌, if◌then◌else◌, ◌==◌, ltb,
  get_or, arith,
}
use motor_stand.Prelude.Loops.{for_range, for_range_inv}
use motor_stand.Double.{Double, ◌⊕◌, ◌⊗◌}
use motor_stand.Matrix.{Memory, load, store}
use motor_stand.Matrix.Store.{Same-refl, Same-store, store_other, load-store_self, load-store_ne}
use motor_stand.Matrix.Entries.{row_major, row_major-injective}
use motor_stand.LeastSquares.{Pointers, add_to, generic_round}
use motor_stand.LeastSquares.Normal.{Apart, sum_from}
use motor_stand.LeastSquares.Equations.{IsSystem, IsSystem-Same}

module _ {D : Type 0} ⦃d : Double D⦄ (n : ℕ) (p : Pointers) (apart : Apart p) where
  -- The equations hold the sums `eq` and their right side the sums `ac`.
  pub record IsSummed (eq : ℕ → ℕ → D) (ac : ℕ → D) (h : Memory D) : Type 0 where
    pub system : IsSystem D n p h
    pub eq_sums : (r c : ℕ) → r < n → c < n → load h p.eq (c + r * n) ≡ eq r c
    pub ac_sums : (r : ℕ) → r < n → load h p.ac r ≡ ac r

  IsSystem-store :
      (h : Memory D) (t pos : ℕ) (v : D) → IsSystem D n p h → IsSystem D n p (store t pos v h)
  IsSystem-store h t pos v s = IsSystem-Same (Same-store {h' = h} pos v (Same-refl t h)) s

  load_other :
      (h : Memory D) (t q pos i : ℕ) (v : D) → q ≢ t → load (store t pos v h) q i ≡ load h q i
  load_other h t q pos i v ne = ap (λ a. get_or a.vals i d.nought) (store_other h t q pos v ne)

  add_eq :
      (eq after : ℕ → ℕ → D) (ac : ℕ → D) (h : Memory D) (j k : ℕ) (v : D)
      → j < n
      → k < n
      → after j k ≡ eq j k ⊕ v
      → ((r c : ℕ) → ¬ ((r ≡ j) × (c ≡ k)) → after r c ≡ eq r c)
      → IsSummed eq ac h
      → IsSummed after ac (add_to p.eq (k + j * n) v h)
  add_eq eq after ac h j k v hj hk here there s =
      let inside = row_major n n j k hj hk in
      let elsewhere = λ (r c : ℕ) (hr : r < n) (hc : c < n) (ne : ¬ ((r ≡ j) × (c ≡ k))).
        load-store_ne h p.eq (k + j * n) (c + r * n) (load h p.eq (k + j * n) ⊕ v) (λ e.
          let (row, col) = row_major-injective n j k r c hk hc (omega arith) in
          ne (sym row, sym col))
        ∙ s.eq_sums r c hr hc
        ∙ sym (there r c ne) in
      record {
        system = IsSystem-store h p.eq (k + j * n) _ s.system;
        eq_sums = λ r c hr hc. elim (ℕ_discrete r j) [
          | no other ↦ elsewhere r c hr hc (λ e. other e.0)
          | yes row ↦ elim (ℕ_discrete c k) [
            | no other ↦ elsewhere r c hr hc (λ e. other e.1)
            | yes col ↦
                rw (row, col)
                  (load-store_self h p.eq (k + j * n) _ (rw s.system.eq.size (omega arith))
                    ∙ ap (λ t. t ⊕ v) (s.eq_sums j k hj hk)
                    ∙ sym here)
          ]
        ];
        ac_sums = λ r hr.
            load_other h p.eq p.ac (k + j * n) r _ (λ e. apart.eq_ac (sym e)) ∙ s.ac_sums r hr;
      }

  add_ac :
      (eq : ℕ → ℕ → D) (ac after : ℕ → D) (h : Memory D) (j : ℕ) (v : D)
      → j < n
      → after j ≡ ac j ⊕ v
      → ((r : ℕ) → r ≢ j → after r ≡ ac r)
      → IsSummed eq ac h
      → IsSummed eq after (add_to p.ac j v h)
  add_ac eq ac after h j v hj here there s = record {
    system = IsSystem-store h p.ac j _ s.system;
    eq_sums = λ r c hr hc. load_other h p.ac p.eq j (c + r * n) _ apart.eq_ac ∙ s.eq_sums r c hr hc;
    ac_sums = λ r hr. elim (ℕ_discrete r j) [
      | yes same ↦ rw same (
          load-store_self h p.ac j _ (rw s.system.ac.size (omega arith))
          ∙ ap (λ t. t ⊕ v) (s.ac_sums j hj)
          ∙ sym here)
      | no other ↦
          load-store_ne h p.ac j r _ (λ e. other (sym e)) ∙ s.ac_sums r hr ∙ sym (there r other)
    ];
  }

  IsSummed-congr :
      (eq eq' : ℕ → ℕ → D) (ac ac' : ℕ → D) (h : Memory D)
      → ((r c : ℕ) → r < n → c < n → eq r c ≡ eq' r c)
      → ((r : ℕ) → r < n → ac r ≡ ac' r)
      → IsSummed eq ac h
      → IsSummed eq' ac' h
  IsSummed-congr eq eq' ac ac' h same same' s = record {
    system = s.system;
    eq_sums = λ r c hr hc. s.eq_sums r c hr hc ∙ same r c hr hc;
    ac_sums = λ r hr. s.ac_sums r hr ∙ same' r hr;
  }

  module _ (eq more : ℕ → ℕ → D) (ac more' : ℕ → D) where
    -- The sums behind the rows before `j` and the columns before `k` of row `j`.
    abbrev partial : ℕ → ℕ → ℕ → ℕ → D
    partial j k r c = if ltb r j || (r == j && ltb c k) then eq r c ⊕ more r c else eq r c

    abbrev partial_right : ℕ → ℕ → D
    partial_right j r = if ltb r j then ac r ⊕ more' r else ac r

    partial_here : (j k : ℕ) → partial j (suc k) j k ≡ partial j k j k ⊕ more j k
    partial_here j k = ground arith

    partial_there : (j k r c : ℕ) → ¬ ((r ≡ j) × (c ≡ k)) → partial j (suc k) r c ≡ partial j k r c
    partial_there j k r c ne = ground arith

    partial_row : (j r c : ℕ) → c < n → partial j n r c ≡ partial (suc j) 0 r c
    partial_row j r c hc = ground arith

    one_row :
        (j : ℕ) (ac' : ℕ → D) (h : Memory D)
        → j < n
        → IsSummed (partial j 0) ac' h
        → IsSummed
            (partial (suc j) 0)
            ac'
            (for_range n 0 (λ k h. add_to p.eq (k + j * n) (more j k) h) h)
    one_row j ac' h hj s =
        IsSummed-congr (partial j n) (partial (suc j) 0) ac' ac' _
          (λ r c hr hc. partial_row j r c hc) (λ r hr. refl)
          (for_range_inv (λ k g. IsSummed (partial j k) ac' g)
            (λ k h. add_to p.eq (k + j * n) (more j k) h) n
            (λ k g hk v.
              add_eq (partial j k) (partial j (suc k)) ac' g j k (more j k) hj hk (partial_here j k)
                (partial_there j k) v)
            n 0 h (omega arith) s)

    one_right :
        (j : ℕ) (eq' : ℕ → ℕ → D) (h : Memory D)
        → j < n
        → IsSummed eq' (partial_right j) h
        → IsSummed eq' (partial_right (suc j)) (add_to p.ac j (more' j) h)
    one_right j eq' h hj s =
        add_ac eq' (partial_right j) (partial_right (suc j)) h j (more' j) hj (ground arith)
          (λ r ne. ground arith) s

    all_rows :
        (h : Memory D)
        → IsSummed eq ac h
        → IsSummed
            (λ r c. eq r c ⊕ more r c)
            (λ r. ac r ⊕ more' r)
            (for_range n 0
              (λ j h.
                let h = for_range n 0 (λ k h. add_to p.eq (k + j * n) (more j k) h) h in
                add_to p.ac j (more' j) h)
              h)
    all_rows h s =
        IsSummed-congr (partial n 0) _ (partial_right n) _ _ (λ r c hr hc. ground arith)
          (λ r hr. ground arith)
          (for_range_inv (λ j g. IsSummed (partial j 0) (partial_right j) g)
            (λ j h.
              let h = for_range n 0 (λ k h. add_to p.eq (k + j * n) (more j k) h) h in
              add_to p.ac j (more' j) h)
            n
            (λ j g hj v. one_right j (partial (suc j) 0) _ hj (one_row j (partial_right j) g hj v))
            n 0 h (omega arith)
            (IsSummed-congr eq (partial 0 0) ac (partial_right 0) h (λ r c hr hc. ground arith)
              (λ r hr. ground arith) s))

  module _ (pow : D → ℕ → D) where
    one_element :
        (eq : ℕ → ℕ → D) (ac : ℕ → D) (x y : D) (h : Memory D)
        → IsSummed eq ac h
        → IsSummed
            (λ r c. eq r c ⊕ pow x (r + c))
            (λ r. ac r ⊕ y ⊗ pow x r)
            (generic_round pow n p x y h)
    unfolding generic_round
    one_element eq ac x y h s = all_rows eq (λ r c. pow x (r + c)) ac (λ r. y ⊗ pow x r) h s

    pub elements-IsSummed :
        (x y : ℕ → D) (nmemb i : ℕ) (eq : ℕ → ℕ → D) (ac : ℕ → D) (h : Memory D)
        → IsSummed eq ac h
        → IsSummed
            (λ r c. sum_from nmemb i (λ i. pow (x i) (r + c)) (eq r c))
            (λ r. sum_from nmemb i (λ i. y i ⊗ pow (x i) r) (ac r))
            (for_range nmemb i (λ i. generic_round pow n p (x i) (y i)) h)
    unfolding for_range sum_from
    elements-IsSummed x y zero i eq ac h s = s
    elements-IsSummed x y (suc nmemb) i eq ac h s =
        elements-IsSummed x y nmemb (i + 1) (λ r c. eq r c ⊕ pow (x i) (r + c))
          (λ r. ac r ⊕ y i ⊗ pow (x i) r) (generic_round pow n p (x i) (y i) h)
          (one_element eq ac (x i) (y i) h s)
