-- ===== src/Lu/Solution.antt =====
-- `_lu_decomp_mat` and `_solve_mat` of src/numerical_basics.c together solve linear equations.
use native.Mathlib.Decide.{ℕ_discrete}
use motor_stand.Prelude.{
  ℕ, zero, suc, ◌+◌, ◌≤◌, ◌<◌, ◌≡◌, refl, sym, ap, ap₂, ◌∙◌, false, some, get_or, get_or-set_self,
  length, length-set, arith,
}
use motor_stand.Prelude.Loops.{for_range}
use motor_stand.Double.{Double, ◌⊕◌, ◌⊗◌}
use motor_stand.Double.Exact.{IsExact, HasExactZero, mul-div}
use motor_stand.Double.Sums.{sum_congr}
use motor_stand.Lu.{Work, Forward, decompose_column, decompose_from, forward_step}
use motor_stand.Lu.Pivots.{Pivoted, find_pivot-bounds, decompose_column-indx}
use motor_stand.Lu.Rounds.{Round, Rounds, done, next, exchange_self}
use motor_stand.Lu.Columns.{IsSquareArray, at}
use motor_stand.Lu.Reduction.{
  pivot_of, decompose_column-IsReduced, decompose_from-IsLater, decompose_from-next,
}
use motor_stand.Lu.Substitution.{side, IsStarted, IsForward, forward_step-IsForward}

module _ {D : Type 0} ⦃d : Double D⦄ (x : IsExact D) (e : HasExactZero D) (n m : ℕ) where
  -- The pivots that a decomposition leaves on the diagonal.
  pub decompose_from-regular :
      (c k : ℕ) (w last : Work D)
      → k + c ≡ n
      → IsSquareArray D n m w.memory
      → decompose_from m n c k w ≡ some last
      → (i : ℕ) → k ≤ i
      → i < n
      → d.eq (at n m last.memory i i) d.nought ≡ false
  decompose_from-regular zero k w last count s h i ki hi = absurd (omega arith)
  decompose_from-regular (suc c) k w last count s h i ki hi =
      let (after, found, rest) = decompose_from-next n m c k w last h in
      let round = decompose_column-IsReduced n m k w after (omega arith) s found in
      let later = decompose_from-IsLater n m c (k + 1) after last (omega arith) round.square rest in
      elim (ℕ_discrete i k) [
        | no other ↦
            decompose_from-regular c (k + 1) after last (omega arith) round.square rest i
              (omega arith) hi
        | yes here ↦ rw here (
            ap (λ t. d.eq t d.nought)
              (later.rows k k (omega arith) (omega arith) (omega arith)
                ∙ round.kept k k (omega arith) (omega arith)
                ∙ ap (λ r. at n m w.memory r k) (exchange_self k (pivot_of n m w k)))
            ∙ round.pivot)
      ]

  module _ (last : Work D) (pivots : Pivoted n n last.indx) where
    abbrev pub step : ℕ → Forward D → Forward D
    step = forward_step last.memory m n last.indx

    step-IsForward :
        (k : ℕ) (f : Forward D)
        → k < n
        → IsStarted n k f
        → IsForward x e last.memory n m last.indx k (get_or last.indx k 0) f (step k f)
    step-IsForward k f hk s =
        forward_step-IsForward x e last.memory n m last.indx k (get_or last.indx k 0) f s
          (pivots.above k hk) (pivots.below k hk) refl

    pub steps-below :
        (c k : ℕ) (f : Forward D)
        → k + c ≡ n
        → IsStarted n k f
        → (length (for_range c k step f).x ≡ n)
          × ((r : ℕ) → r < k → side (for_range c k step f).x r ≡ side f.x r)
    unfolding for_range
    steps-below zero k f count s = (s.size, λ r lt. refl)
    steps-below (suc c) k f count s =
        let fwd = step-IsForward k f (omega arith) s in
        let (size, rest) = steps-below c (k + 1) (step k f) (omega arith) fwd.next in
        (size, λ r lt. rest r (omega arith) ∙ fwd.below r lt)

    -- A round of the decomposition with the step of the substitution.
    column-Round :
        (c k : ℕ) (w after : Work D) (f : Forward D)
        → k + suc c ≡ n
        → IsSquareArray D n m w.memory
        → n ≤ length w.indx
        → decompose_column m n k w ≡ some after
        → decompose_from m n c (k + 1) after ≡ some last
        → IsStarted n k f
        → Round D n
            (at n m last.memory)
            (side (for_range c (k + 1) step (step k f)).x)
            k
            (pivot_of n m w k)
            (at n m w.memory)
            (at n m after.memory)
            (side f.x)
            (side (step k f).x)
    column-Round c k w after f count s room found rest started =
        let p = pivot_of n m w k in
        let round = decompose_column-IsReduced n m k w after (omega arith) s found in
        let later =
          decompose_from-IsLater n m c (k + 1) after last (omega arith) round.square rest in
        let (kp, hp) = find_pivot-bounds m n w k (omega arith) in
        let at_p : get_or last.indx k 0 ≡ p =
          later.pivots k (omega arith)
          ∙ ap (λ t. get_or t k 0) (decompose_column-indx m n k w after found)
          ∙ get_or-set_self w.indx k p 0 (omega arith) in
        let fwd = forward_step-IsForward x e last.memory n m last.indx k p f started kp hp at_p in
        let (size, stays) = steps-below c (k + 1) (step k f) (omega arith) fwd.next in
        record {
          pivot_above = kp;
          pivot_below = hp;
          kept = λ r j hr hj. round.kept r j hr hj;
          factors = λ r j kr hr hj. round.factors r j kr hr hj;
          factor = λ r kr hr.
              x.mul_comm _ _
              ∙ ap (λ t. at n m w.memory p k ⊗ t) (round.factor r kr hr)
              ∙ mul-div x _ (at n m w.memory p k) round.pivot;
          reduced = λ r j kr hr kj hj. round.reduced r j kr hr kj hj;
          moved = λ r kr hr. fwd.moved r kr hr;
          solved =
              ap₂ (λ s t. s ⊕ t) (stays k (omega arith))
                (sum_congr k 0 _ _ (λ j le lt.
                  ap₂ (λ s t. s ⊗ t)
                    (sym (later.rows k j (omega arith) (omega arith) (omega arith)))
                    (stays j (omega arith) ∙ fwd.below j (omega arith))))
              ∙ fwd.solved;
          last = λ j hj. later.rows k j (omega arith) (omega arith) hj;
        }

    pub decompose_from-Rounds :
        (c k : ℕ) (w : Work D) (f : Forward D)
        → k + c ≡ n
        → IsSquareArray D n m w.memory
        → n ≤ length w.indx
        → decompose_from m n c k w ≡ some last
        → IsStarted n k f
        → Rounds D n
            (at n m last.memory)
            (side (for_range c k step f).x)
            c
            k
            (at n m w.memory)
            (side f.x)
    unfolding for_range
    decompose_from-Rounds zero k w f count s room h started = done k _ _
    decompose_from-Rounds (suc c) k w f count s room h started =
        let (after, found, rest) = decompose_from-next n m c k w last h in
        let round = decompose_column-IsReduced n m k w after (omega arith) s found in
        let fwd = step-IsForward k f (omega arith) started in
        let size = ap length (decompose_column-indx m n k w after found) ∙ length-set w.indx k _ in
        next c k (pivot_of n m w k) _ (at n m after.memory) _ (side (step k f).x)
          (column-Round c k w after f count s room found rest started)
          (decompose_from-Rounds c (k + 1) after (step k f) (omega arith) round.square
            (omega (arith, room, size)) rest fwd.next)
