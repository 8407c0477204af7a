-- ===== src/Lu/Elimination.antt =====
-- What the reduction of the rows below the pivot in `_lu_decomp_mat` of src/numerical_basics.c leaves.
use native.Mathlib.Decide.{ℕ_discrete}
use motor_stand.Prelude.{
  ℕ, suc, ◌+◌, ◌-◌, ◌≤◌, ◌<◌, ◌≡◌, ◌≢◌, refl, sym, ap₂, ◌∙◌, inl, inr, true, false, if◌then◌else◌,
  ◌==◌, ltb, arith, Bool-cases,
}
use motor_stand.Prelude.Loops.{for_range, for_range_inv}
use motor_stand.Double.{Double, ◌⊖◌, ◌⊗◌, ◌⊘◌}
use motor_stand.Matrix.{Memory, index, load, store}
use motor_stand.Lu.{eliminate}
use motor_stand.Lu.Columns.{IsSquareArray, IsSquareArray-store, at, at-store_self, at-store_ne}

module _ {D : Type 0} ⦃d : Double D⦄ (n m k : ℕ) (hk : k < n) where
  -- The entry of a row below the pivot, reduced.
  abbrev pub target : Memory D → ℕ → ℕ → D
  target h r c =
      let l = at n m h r k ⊘ at n m h k k in
      if ltb c k then at n m h r c else if c == k then l else at n m h r c ⊖ l ⊗ at n m h k c

  pub target_left : (h : Memory D) (r c : ℕ) → c < k → target h r c ≡ at n m h r c
  target_left h r c lt = let e : ltb c k ≡ true = ground arith in rw e refl

  pub target_pivot : (h : Memory D) (r : ℕ) → target h r k ≡ at n m h r k ⊘ at n m h k k
  target_pivot h r =
      let e : ltb k k ≡ false = ground arith in
      let e' : (k == k) ≡ true = ground arith in rw (e, e') refl

  pub target_right :
      (h : Memory D) (r c : ℕ)
      → k < c
      → target h r c ≡ at n m h r c ⊖ (at n m h r k ⊘ at n m h k k) ⊗ at n m h k c
  target_right h r c lt =
      let e : ltb c k ≡ false = ground arith in
      let e' : (c == k) ≡ false = ground arith in rw (e, e') refl

  -- The reduced entry depends on its own row and that of the pivot.
  target_same :
      (h before : Memory D) (r c : ℕ)
      → r < n
      → c < n
      → ((j : ℕ) → j < n → at n m h r j ≡ at n m before r j)
      → ((j : ℕ) → j < n → at n m h k j ≡ at n m before k j)
      → target h r c ≡ target before r c
  target_same h before r c hr hc own pivot = elim (ℕ_discrete c k) [
    | yes here ↦ rw here (
        target_pivot h r ∙ ap₂ (λ a b. a ⊘ b) (own k hk) (pivot k hk) ∙ sym (target_pivot before r))
    | no other ↦ elim (Bool-cases (ltb c k)) [
      | inl below ↦
          target_left h r c (ground arith) ∙ own c hc ∙ sym (target_left before r c (ground arith))
      | inr above ↦
          target_right h r c (ground arith)
          ∙ ap₂ (λ a b. a ⊖ b) (own c hc)
              (ap₂ (λ a b. a ⊗ b) (ap₂ (λ a b. a ⊘ b) (own k hk) (pivot k hk)) (pivot c hc))
          ∙ sym (target_right before r c (ground arith))
    ]
  ]

  -- Row `i` is reduced in the columns below `j`, everything else is as before.
  record IsReducedTo (i : ℕ) (before : Memory D) (j : ℕ) (h : Memory D) : Type 0 where
    square : IsSquareArray D n m h
    others : (r c : ℕ) → r < n → c < n → r ≢ i → at n m h r c ≡ at n m before r c
    reduced : (c : ℕ) → c < n → c < j → at n m h i c ≡ target before i c
    left : (c : ℕ) → c < n → j ≤ c → at n m h i c ≡ at n m before i c

  module _ (i : ℕ) (ki : k < i) (hi : i < n) (before : Memory D)
      (s : IsSquareArray D n m before) where
    abbrev factor : D
    factor = at n m before i k ⊘ at n m before k k

    abbrev reduce_entry : ℕ → Memory D → Memory D
    reduce_entry j h =
        store m (index n i j) (load h m (index n i j) ⊖ factor ⊗ load h m (index n k j)) h

    reduce_entry-IsReducedTo :
        (j : ℕ) (h : Memory D)
        → k < j
        → j < n
        → IsReducedTo i before j h
        → IsReducedTo i before (suc j) (reduce_entry j h)
    reduce_entry-IsReducedTo j h kj hj v = record {
      square = IsSquareArray-store n m h _ _ v.square;
      others = λ r c hr hc ne.
          at-store_ne n m h i j r c _ v.square hi hj hr hc (λ e. ne (sym e.0))
          ∙ v.others r c hr hc ne;
      reduced = λ c hc lt. elim (ℕ_discrete c j) [
        | no other ↦
            at-store_ne n m h i j i c _ v.square hi hj hi hc (λ e. other (sym e.1))
            ∙ v.reduced c hc (omega arith)
        | yes here ↦ rw here (
            at-store_self n m h i j _ v.square hi hj
            ∙ ap₂ (λ a b. a ⊖ factor ⊗ b) (v.left j hj (omega arith))
                (v.others k j hk hj (λ e. omega arith))
            ∙ sym (target_right before i j kj))
      ];
      left = λ c hc le.
          at-store_ne n m h i j i c _ v.square hi hj hi hc (λ e. omega arith)
          ∙ v.left c hc (omega arith);
    }

    first_entry-IsReducedTo : IsReducedTo i before (k + 1) (store m (index n i k) factor before)
    first_entry-IsReducedTo = record {
      square = IsSquareArray-store n m before _ _ s;
      others = λ r c hr hc ne. at-store_ne n m before i k r c _ s hi hk hr hc (λ e. ne (sym e.0));
      reduced = λ c hc lt. elim (ℕ_discrete c k) [
        | yes here ↦
            rw here (at-store_self n m before i k factor s hi hk ∙ sym (target_pivot before i))
        | no other ↦
            at-store_ne n m before i k i c factor s hi hk hi hc (λ e. other (sym e.1))
            ∙ sym (target_left before i c (omega arith))
      ];
      left = λ c hc le. at-store_ne n m before i k i c _ s hi hk hi hc (λ e. omega arith);
    }

    abbrev reduce_row : Memory D
    reduce_row = for_range (n - (k + 1)) (k + 1) reduce_entry (store m (index n i k) factor before)

    reduce_row-IsReducedTo : IsReducedTo i before n reduce_row
    reduce_row-IsReducedTo =
        let start = store m (index n i k) factor before in
        let first : (k < k + 1) × IsReducedTo i before (k + 1) start =
          (omega arith, first_entry-IsReducedTo) in
        (for_range_inv (λ j h. (k < j) × IsReducedTo i before j h) reduce_entry n
          (λ j h hj v. (omega (arith, v.0), reduce_entry-IsReducedTo j h v.0 hj v.1)) (n - (k + 1))
          (k + 1) start (omega arith) first).1

  -- The rows below the pivot and above row `i` are reduced, the others are as before.
  record IsReducedBelow (before : Memory D) (i : ℕ) (h : Memory D) : Type 0 where
    square : IsSquareArray D n m h
    upper : (r c : ℕ) → r ≤ k → c < n → at n m h r c ≡ at n m before r c
    lower : (r c : ℕ) → i ≤ r → r < n → c < n → at n m h r c ≡ at n m before r c
    reduced : (r c : ℕ) → k < r → r < i → r < n → c < n → at n m h r c ≡ target before r c

  module _ (before : Memory D) (s : IsSquareArray D n m before) where
    next_row-IsReducedBelow :
        (i : ℕ) (h : Memory D) (ki : k < i) (hi : i < n) (v : IsReducedBelow before i h)
        → IsReducedBelow before (suc i) (reduce_row i ki hi h v.square)
    next_row-IsReducedBelow i h ki hi v =
        let w = reduce_row-IsReducedTo i ki hi h v.square in
        record {
          square = w.square;
          upper = λ r c hr hc. w.others r c (omega arith) hc (λ e. omega arith) ∙ v.upper r c hr hc;
          lower = λ r c le hr hc.
              w.others r c hr hc (λ e. omega arith) ∙ v.lower r c (omega arith) hr hc;
          reduced = λ r c kr lt hr hc. elim (ℕ_discrete r i) [
            | no other ↦ w.others r c hr hc other ∙ v.reduced r c kr (omega arith) hr hc
            | yes here ↦ rw here (
                w.reduced c hc hc
                ∙ target_same h before i c hi hc (λ j hj. v.lower i j (omega arith) hi hj)
                    (λ j hj. v.upper k j (omega arith) hj))
          ];
        }

    eliminate-IsReducedBelow : (k < n) × IsReducedBelow before n (eliminate m n k before)
    unfolding eliminate
    eliminate-IsReducedBelow =
        for_range_inv (λ i h. (k < i) × IsReducedBelow before i h) _ n
          (λ i h hi v. (omega (arith, v.0), next_row-IsReducedBelow i h v.0 hi v.1)) (n - (k + 1))
          (k + 1) before (omega arith)
          (
            omega arith,
            record {
              square = s;
              upper = λ r c hr hc. refl;
              lower = λ r c le hr hc. refl;
              reduced = λ r c kr lt hr hc. absurd (omega arith);
            },
          )

    -- The rows up to the pivot stay, those below it are reduced.
    pub eliminate-target :
        let after = eliminate m n k before in
        IsSquareArray D n m after
        × ((r c : ℕ) → r ≤ k → c < n → at n m after r c ≡ at n m before r c)
        × ((r c : ℕ) → k < r → r < n → c < n → at n m after r c ≡ target before r c)
    eliminate-target =
        let v = eliminate-IsReducedBelow.1 in
        (v.square, v.upper, λ r c kr hr hc. v.reduced r c kr hr hr hc)
