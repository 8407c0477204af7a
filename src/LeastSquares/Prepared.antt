-- ===== src/LeastSquares/Prepared.antt =====
-- The matrices of a fit in src/method_of_least_squares.c, behind their allocations.
use motor_stand.Prelude.{
  ℕ, ◌+◌, ◌*◌, ◌^◌, ◌≤◌, ◌≡◌, refl, sym, ap, ◌∙◌, List, ==_refl, ==_of_ne, length, get_or, arith,
}
use motor_stand.Double.{Double}
use motor_stand.Matrix.{Memory, load, alloc_mat, matzro}
use motor_stand.Matrix.Entries.{entry}
use motor_stand.Matrix.Elementwise.{matzro-Gives}
use motor_stand.Inverse.{dalloc_mat}
use motor_stand.LeastSquares.{Pointers, prepare}
use motor_stand.LeastSquares.Normal.{Apart}
use motor_stand.LeastSquares.Equations.{IsSystem-Same, IsSystem, IsSized-IsMat, column_load}
use motor_stand.LeastSquares.Moments.{IsSummed}

-- The matrices are allocated one behind another.
abbrev pub pointers : {D : Type 0} → Memory D → Pointers
pointers h = record { eq = h.next; ac = h.next + 1; ei = h.next + 1 + 1; co = h.next + 1 + 1 + 1 }

pub pointers-Apart : {D : Type 0} (h : Memory D) → Apart (pointers h)
pointers-Apart h = record {
  eq_ac = λ q. omega arith;
  eq_ei = λ q. omega arith;
  eq_co = λ q. omega arith;
  ac_ei = λ q. omega arith;
  ac_co = λ q. omega arith;
  ei_co = λ q. omega arith;
}

column_small : (n : ℕ) → n * n ≤ 2 ^ 32 → n * 1 ≤ 2 ^ 32
column_small n small = grind arith

pub square_load :
    {D : Type 0} ⦃d : Double D⦄ (n : ℕ) (h : Memory D) (q r c : ℕ)
    → (h.cell q).cols ≡ n
    → entry h q r c ≡ load h q (c + r * n)
square_load n h q r c e =
    let position : r * (h.cell q).cols + c ≡ c + r * n = rw e (omega arith) in
    ap (load h q) position

module _ {D : Type 0} ⦃d : Double D⦄ (garbage : ℕ → List D)
    (room : (size : ℕ) → length (garbage size) ≡ size) (n : ℕ) (h : Memory D) where
  -- The memory behind the allocations.
  abbrev allocated : Memory D
  allocated =
      let h = (dalloc_mat garbage n n h).1 in
      let h = (dalloc_mat garbage n 1 h).1 in
      let h = (dalloc_mat garbage n n h).1 in (dalloc_mat garbage n 1 h).1

  allocated-IsSystem : IsSystem D n (pointers h) allocated
  unfolding dalloc_mat alloc_mat
  allocated-IsSystem =
      let q = pointers h in
      let co_ei = ==_of_ne q.co q.ei (λ e. omega arith) in
      let co_ac = ==_of_ne q.co q.ac (λ e. omega arith) in
      let co_eq = ==_of_ne q.co q.eq (λ e. omega arith) in
      let ei_ac = ==_of_ne q.ei q.ac (λ e. omega arith) in
      let ei_eq = ==_of_ne q.ei q.eq (λ e. omega arith) in
      let ac_eq = ==_of_ne q.ac q.eq (λ e. omega arith) in
      record {
        eq = record {
          old = omega arith;
          rows = rw (co_eq, ei_eq, ac_eq, ==_refl q.eq) refl;
          cols = rw (co_eq, ei_eq, ac_eq, ==_refl q.eq) refl;
          size = rw (co_eq, ei_eq, ac_eq, ==_refl q.eq) (room _);
        };
        ac = record {
          old = omega arith;
          rows = rw (co_ac, ei_ac, ==_refl q.ac) refl;
          cols = rw (co_ac, ei_ac, ==_refl q.ac) refl;
          size = rw (co_ac, ei_ac, ==_refl q.ac) (room _);
        };
        ei = record {
          old = omega arith;
          rows = rw (co_ei, ==_refl q.ei) refl;
          cols = rw (co_ei, ==_refl q.ei) refl;
          size = rw (co_ei, ==_refl q.ei) (room _);
        };
        co = record {
          old = omega arith;
          rows = rw (==_refl q.co) refl;
          cols = rw (==_refl q.co) refl;
          size = rw (==_refl q.co) (room _);
        };
      }

  pub prepare-IsSummed :
      n * n ≤ 2 ^ 32
      → IsSummed n
          (pointers h)
          (pointers-Apart h)
          (λ r c. d.nought)
          (λ r. d.nought)
          (prepare garbage n h).1
  unfolding prepare dalloc_mat alloc_mat
  prepare-IsSummed small =
      let q = pointers h in
      let column : n * 1 ≤ 2 ^ 32 = column_small n small in
      let s = allocated-IsSystem in
      let (same, zeros) =
        matzro-Gives allocated q.eq (IsSized-IsMat allocated q.eq n n small s.eq) in
      let between = matzro q.eq allocated in
      let s' = IsSystem-Same same s in
      let (same', zeros') =
        matzro-Gives between q.ac (IsSized-IsMat between q.ac n 1 column s'.ac) in
      let last = matzro q.ac between in
      record {
        system = IsSystem-Same same' s';
        eq_sums = λ r c hr hc.
            ap (λ a. get_or a.vals (c + r * n) d.nought)
              (same'.others q.eq (pointers-Apart h).eq_ac)
            ∙ sym (square_load n between q.eq r c s'.eq.cols)
            ∙ zeros r c (rw s.eq.rows hr) (rw s.eq.cols hc);
        ac_sums = λ r hr.
            sym (column_load last q.ac r (same'.cols ∙ s'.ac.cols))
            ∙ zeros' r 0 (rw s'.ac.rows hr) (rw s'.ac.cols (omega arith));
      }
