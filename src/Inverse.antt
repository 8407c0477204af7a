-- ===== src/Inverse.antt =====
-- `matinv_safe`, `matinv`, `matdet` and the in-place functions of src/numerical_basics.c. What `malloc`
-- returns holds the values of a parameter.
pub mod Closed
pub mod Columns
pub mod Identity
mod Tests
use motor_stand.Prelude.{
  ℕ, ◌*◌, Bool, true, false, not, ◌&&◌, Option, none, some, List, if◌then◌else◌, ◌==◌, get_or, set,
  replicate,
}
use motor_stand.Prelude.Loops.{for_range}
use motor_stand.Double.{Double, ◌⊕◌, ◌⊖◌, ◌⊗◌, ◌⊘◌}
use motor_stand.Matrix.{Memory, index, load, store, same_shape, alloc_mat, matidn, matdup, mattrn}
use motor_stand.Lu.{lu_decomp_mat, aborted, singular, decomposed, solve_mat}

-- `assert(not_singular == 1)`
abbrev pub assert_regular : {D : Type 0} → Option (Bool × Memory D) → Option (Memory D)
assert_regular none = none
assert_regular (some (true, h)) = some h
assert_regular (some (false, h)) = none

module _ {D : Type 0} ⦃d : Double D⦄ where
  -- The determinants of the closed forms, in the order of the source.
  pub det_2 : Memory D → ℕ → D
  det_2 h a = load h a 0 ⊗ load h a 3 ⊖ load h a 1 ⊗ load h a 2

  pub det_3 : Memory D → ℕ → D
  det_3 h p =
      let a = load h p 0 in
      let b = load h p 1 in
      let c = load h p 2 in
      let d' = load h p 3 in
      let e = load h p 4 in
      let f = load h p 5 in
      let g = load h p 6 in
      let h' = load h p 7 in
      let i = load h p 8 in
      a ⊗ e ⊗ i ⊕ b ⊗ f ⊗ g ⊕ c ⊗ d' ⊗ h' ⊖ c ⊗ e ⊗ g ⊖ b ⊗ d' ⊗ i ⊖ a ⊗ f ⊗ h'

  -- The pair is the flag, false with the result NULL, and the memory.
  pub inverse_1 : ℕ → ℕ → Memory D → Bool × Memory D
  inverse_1 a ainv h =
      if d.eq (load h a 0) d.nought
      then (false, h)
      else (true, store ainv 0 (d.unit ⊘ load h a 0) h)

  pub inverse_2 : ℕ → ℕ → Memory D → Bool × Memory D
  inverse_2 a ainv h =
      let div = det_2 h a in
      let h₁ = store ainv 0 (load h a 3 ⊘ div) h in
      let h₂ = store ainv 1 (d.neg (load h₁ a 1) ⊘ div) h₁ in
      let h₃ = store ainv 2 (d.neg (load h₂ a 2) ⊘ div) h₂ in
      if d.eq div d.nought then (false, h) else (true, store ainv 3 (load h₃ a 0 ⊘ div) h₃)

  pub inverse_3 : ℕ → ℕ → Memory D → Bool × Memory D
  inverse_3 p ainv h =
      let a = load h p 0 in
      let b = load h p 1 in
      let c = load h p 2 in
      let d' = load h p 3 in
      let e = load h p 4 in
      let f = load h p 5 in
      let g = load h p 6 in
      let h' = load h p 7 in
      let i = load h p 8 in
      let div = det_3 h p in
      let m = store ainv 0 ((e ⊗ i ⊖ f ⊗ h') ⊘ div) h in
      let m = store ainv 1 ((c ⊗ h' ⊖ b ⊗ i) ⊘ div) m in
      let m = store ainv 2 ((b ⊗ f ⊖ e ⊗ c) ⊘ div) m in
      let m = store ainv 3 ((g ⊗ f ⊖ d' ⊗ i) ⊘ div) m in
      let m = store ainv 4 ((a ⊗ i ⊖ g ⊗ c) ⊘ div) m in
      let m = store ainv 5 ((d' ⊗ c ⊖ a ⊗ f) ⊘ div) m in
      let m = store ainv 6 ((d' ⊗ h' ⊖ g ⊗ e) ⊘ div) m in
      let m = store ainv 7 ((g ⊗ b ⊖ a ⊗ h') ⊘ div) m in
      let m = store ainv 8 ((a ⊗ e ⊖ b ⊗ d') ⊘ div) m in
      if d.eq div d.nought then (false, h) else (true, m)

  -- Column `j` of `ainv`, replaced by the solution for it.
  unfoldable pub solve_column : ℕ → ℕ → List ℕ → ℕ → ℕ → Memory D → Memory D
  solve_column ainv lu indx rows j h =
      let gather = λ (i : ℕ) (xx : List D). set xx i (load h ainv (index rows i j)) in
      let xx = solve_mat h lu indx (for_range rows 0 gather (replicate rows d.nought)) in
      for_range rows 0 (λ i h. store ainv (index rows i j) (get_or xx i d.nought) h) h

  module _ (garbage : ℕ → List D) where
    -- `DALLOCMAT`; the block holds `garbage size`.
    unfoldable pub dalloc_mat : ℕ → ℕ → Memory D → ℕ × Memory D
    dalloc_mat m n h = alloc_mat m n (garbage (m * n)) h

    unfoldable pub inverse_lu : ℕ → ℕ → Memory D → Option (Bool × Memory D)
    inverse_lu a ainv h =
        let rows = (h.cell a).rows in
        let (lu, allocated) = dalloc_mat rows (h.cell a).cols h in
        elim (lu_decomp_mat a lu (replicate rows 0) allocated) [
          | aborted ↦ none
          | singular ↦ some (false, h)
          | decomposed w ↦
              some
                (true, for_range rows 0 (solve_column ainv lu w.indx rows) (matidn ainv w.memory))
        ]

    -- `none` is a failed assertion.
    unfoldable pub matinv_safe : ℕ → ℕ → Memory D → Option (Bool × Memory D)
    matinv_safe a ainv h =
        let rows = (h.cell a).rows in
        if not (same_shape h a ainv && not (a == ainv) && rows == (h.cell a).cols)
        then none
        else if rows == 1
        then some (inverse_1 a ainv h)
        else if rows == 2
        then some (inverse_2 a ainv h)
        else if rows == 3
        then some (inverse_3 a ainv h)
        else inverse_lu a ainv h

    unfoldable pub matinv : ℕ → ℕ → Memory D → Option (Memory D)
    matinv a ainv h = assert_regular (matinv_safe a ainv h)

    pub matinv_inplace : ℕ → Memory D → Option (Memory D)
    matinv_inplace a h =
        let (ad, allocated) = dalloc_mat (h.cell a).rows (h.cell a).cols h in
        elim (matinv a ad allocated) [ none ↦ none | some h' ↦ matdup ad a h' ]

    pub mattrn_inplace : ℕ → Memory D → Option (Memory D)
    mattrn_inplace a h =
        let (ad, allocated) = dalloc_mat (h.cell a).rows (h.cell a).cols h in
        let copied : Option (Memory D) = elim (mattrn a ad allocated) [
          | none ↦ none
          | some h' ↦ matdup ad a h'
        ] in
        if (h.cell a).rows == (h.cell a).cols then copied else none

    pub det_lu : ℕ → Memory D → D
    det_lu a h =
        let rows = (h.cell a).rows in
        let (lu, allocated) = dalloc_mat rows (h.cell a).cols h in
        elim (lu_decomp_mat a lu (replicate rows 0) allocated) [
          | aborted ↦ d.nought
          | singular ↦ d.nought
          | decomposed w ↦ for_range rows 0 (λ i dd. dd ⊗ load w.memory lu (index rows i i)) w.d
        ]

    -- Its call of the decomposition cannot abort: the matrix is square and the copy has its shape.
    pub matdet : ℕ → Memory D → D
    matdet a h =
        let rows = (h.cell a).rows in
        if not (rows == (h.cell a).cols)
        then d.nought
        else if rows == 0
        then d.nought
        else if rows == 1
        then load h a 0
        else if rows == 2
        then det_2 h a
        else if rows == 3
        then det_3 h a
        else det_lu a h
