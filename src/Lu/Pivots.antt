-- ===== src/Lu/Pivots.antt =====
-- The pivots of `_lu_decomp_mat` of src/numerical_basics.c are rows of the matrix, so that `_solve_mat`,
-- which uses them as positions, stays inside its arrays.
use native.Mathlib.Decide.{ℕ_discrete}
use motor_stand.Prelude.{
  ℕ, zero, suc, ◌+◌, ◌-◌, ◌≤◌, ◌<◌, ◌≡◌, inl, inr, Bool-cases, some, Option-cases, List, ◌==◌,
  get_or, set, length, length-set, get_or-set_self, get_or-set_ne, replicate, arith,
}
use motor_stand.Prelude.Loops.{for_range_inv}
use motor_stand.Double.{Double, ◌⊗◌}
use motor_stand.Matrix.{Memory, index, load, matdup}
use motor_stand.Lu.{
  Work, Pivot, find_pivot, pivoted, decompose_column, decompose_from, decompose_copy, lu_decomp_mat,
  decomposed, scales,
}

-- The first `k` pivots are rows of the matrix, none above its own.
pub record Pivoted (rows k : ℕ) (indx : List ℕ) : Type 0 where
  pub room : rows ≤ length indx
  pub above : (i : ℕ) → i < k → i ≤ get_or indx i 0
  pub below : (i : ℕ) → i < k → get_or indx i 0 < rows

pub Pivoted-next :
    (rows k imax : ℕ) (indx : List ℕ)
    → k < rows
    → k ≤ imax
    → imax < rows
    → Pivoted rows k indx
    → Pivoted rows (k + 1) (set indx k imax)
Pivoted-next rows k imax indx lt le bound v = record {
  room = omega (arith, v.room, length-set indx k imax);
  above = λ i hi. elim (ℕ_discrete k i) [
    | yes here ↦ rw (← here, get_or-set_self indx k imax 0 (omega (arith, v.room))) le
    | no other ↦ rw (get_or-set_ne indx k i imax 0 other) (v.above i (omega arith))
  ];
  below = λ i hi. elim (ℕ_discrete k i) [
    | yes here ↦ rw (← here, get_or-set_self indx k imax 0 (omega (arith, v.room))) bound
    | no other ↦ rw (get_or-set_ne indx k i imax 0 other) (v.below i (omega arith))
  ];
}

module _ {D : Type 0} ⦃d : Double D⦄ (m rows : ℕ) where
  pub find_pivot-bounds :
      (w : Work D) (k : ℕ)
      → k < rows
      → (k ≤ (find_pivot w m rows k).imax) × ((find_pivot w m rows k).imax < rows)
  unfolding find_pivot
  find_pivot-bounds w k lt =
      let ended =
        for_range_inv (λ i (p : Pivot D). (k ≤ i) × (k ≤ p.imax) × (p.imax < rows)) _ rows
          (λ i p hi (ki, kp, lt').
            elim (Bool-cases
              (d.gt (get_or w.vv i d.nought ⊗ d.fabs (load w.memory m (index rows i k))) p.big)) [
                | inl larger ↦ rw larger (omega arith, ki, hi)
                | inr other ↦ rw other (omega arith, kp, lt')
              ])
          (rows - k) k (record { big = d.nought; imax = k }) (omega arith)
          (omega arith, omega arith, lt) in
      (ended.1, ended.2)

  pub decompose_column-indx :
      (k : ℕ) (w w' : Work D)
      → decompose_column m rows k w ≡ some w'
      → w'.indx ≡ set w.indx k (find_pivot w m rows k).imax
  unfolding decompose_column pivoted
  decompose_column-indx k w w' h =
      elim (Bool-cases (
        d.eq (load (pivoted m rows k (find_pivot w m rows k).imax w).memory m (index rows k k))
          d.nought)) [
            | inl zero_pivot ↦ let h' = rw zero_pivot at h in ground arith
            | inr pivot ↦ let h' = rw pivot at h in ground arith
          ]

  decompose_from-Pivoted :
      (n k : ℕ) (w w' : Work D)
      → k + n ≡ rows
      → Pivoted rows k w.indx
      → decompose_from m rows n k w ≡ some w'
      → Pivoted rows rows w'.indx
  unfolding decompose_from
  decompose_from-Pivoted zero k w w' e v h =
      let done : k ≡ rows = omega arith in
      let same : w ≡ w' = ground arith in rw (← same) (rw done at v)
  decompose_from-Pivoted (suc n) k w w' e v h = elim (Option-cases (decompose_column m rows k w)) [
    | inl failed ↦ let h' = rw (failed, decompose_from) at h in ground arith
    | inr (next, found) ↦
        let h' = rw (found, decompose_from) at h in
        let (le, lt) = find_pivot-bounds w k (omega arith) in
        let pivots =
          Pivoted-next rows k (find_pivot w m rows k).imax w.indx (omega arith) le lt v in
        decompose_from-Pivoted n (k + 1) next w' (omega arith)
          (rw (decompose_column-indx k w next found) pivots) h'
  ]

  pub decompose_copy-Pivoted :
      (indx : List ℕ) (h : Memory D) (w : Work D)
      → rows ≤ length indx
      → decompose_copy m rows indx h ≡ decomposed w
      → Pivoted rows rows w.indx
  unfolding decompose_copy
  decompose_copy-Pivoted indx h w room e =
      elim (Option-cases (scales h m rows rows 0 (replicate rows d.nought))) [
        | inl failed ↦ let e' = rw (failed, decompose_copy) at e in ground arith
        | inr (vv, found) ↦
            let first : Work D = record { memory = h; vv = vv; indx = indx; d = d.unit } in
            let start : Pivoted rows 0 indx = record {
              room = room;
              above = λ i lt. absurd (omega arith);
              below = λ i lt. absurd (omega arith);
            } in
            elim (Option-cases (decompose_from m rows rows 0 first)) [
              | inl failed ↦ let e' = rw (found, failed, decompose_copy) at e in ground arith
              | inr (last, ended) ↦
                  let e' = rw (found, ended, decompose_copy) at e in
                  let same : last ≡ w = ground arith in
                  rw (← same) (decompose_from-Pivoted rows 0 first last (omega arith) start ended)
            ]
      ]

module _ {D : Type 0} ⦃d : Double D⦄ where
  -- A decomposition that succeeds notes for each row a pivot row that is not above it and lies in the
  -- matrix, also if the matrix is decomposed in place.
  pub lu_decomp_mat-Pivoted :
      (a m : ℕ) (indx : List ℕ) (h : Memory D) (w : Work D)
      → (h.cell a).rows ≤ length indx
      → lu_decomp_mat a m indx h ≡ decomposed w
      → Pivoted (h.cell a).rows (h.cell a).rows w.indx
  unfolding lu_decomp_mat
  lu_decomp_mat-Pivoted a m indx h w room e =
      let rows = (h.cell a).rows in
      elim (Bool-cases (rows == (h.cell a).cols)) [
        | inr oblong ↦ let e' = rw (oblong, lu_decomp_mat) at e in ground arith
        | inl square ↦ elim (Bool-cases (a == m)) [
          | inl in_place ↦
              decompose_copy-Pivoted m rows indx h w room
                (rw (square, in_place, lu_decomp_mat) at e)
          | inr apart ↦ elim (Option-cases (matdup a m h)) [
            | inl failed ↦ let e' = rw (square, apart, failed, lu_decomp_mat) at e in ground arith
            | inr (h', copied) ↦
                decompose_copy-Pivoted m rows indx h' w room
                  (rw (square, apart, copied, lu_decomp_mat) at e)
          ]
        ]
      ]
