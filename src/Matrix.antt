-- ===== src/Matrix.antt =====
-- The matrices of src/numerical_basics.c and src/numerical_basics.h. A matrix is an object in memory,
-- named by a pointer, so that two arguments of a call may be the same matrix; a failed assertion is
-- `none`. Positions are computed in 32 bits, as `uint32_t`.
pub mod Store
pub mod Fill
pub mod Entries
pub mod Elementwise
pub mod Product
pub mod Small
mod Tests
use motor_stand.Prelude.{
  ℕ, zero, suc, ◌+◌, ◌*◌, ◌%◌, ◌^◌, ◌≡◌, Bool, not, ◌&&◌, Option, none, some, List, [], ◌∷◌,
  if◌then◌else◌, ◌==◌, get_or, set,
}
use motor_stand.Prelude.Loops.{for_range}
use motor_stand.Double.{Double, ◌⊕◌, ◌⊖◌, ◌⊗◌, ◌⊘◌}

-- `matbase`
pub record Mat (D : Type 0) : Type 0 where
  pub rows : ℕ
  pub cols : ℕ
  pub vals : List D

-- The matrices that were allocated, `next` the pointer that the next allocation gives.
pub record Memory (D : Type 0) : Type 0 where
  pub next : ℕ
  pub cell : ℕ → Mat D

-- `n + m * cols` as an `uint32_t`
abbrev pub index : ℕ → ℕ → ℕ → ℕ
index cols m n = (n + m * cols) % 2 ^ 32

module _ {D : Type 0} ⦃d : Double D⦄ where
  -- A read outside the array gives 0.0 and a write there does nothing: `Fill` shows that the positions
  -- of every loop lie inside.
  abbrev pub load : Memory D → ℕ → ℕ → D
  load h p pos = get_or (h.cell p).vals pos d.nought

module _ {D : Type 0} where
  abbrev pub written : Mat D → ℕ → D → Mat D
  written a pos v = record a { vals = set a.vals pos v }

  abbrev pub store : ℕ → ℕ → D → Memory D → Memory D
  store p pos v h = record h { cell = λ q. if p == q then written (h.cell p) pos v else h.cell q }

  -- `_alloc_mat`: `garbage` is what the block holds.
  unfoldable pub alloc_mat : ℕ → ℕ → List D → Memory D → ℕ × Memory D
  alloc_mat m n garbage h =
      let fresh : Mat D = record { rows = m; cols = n; vals = garbage } in
      (h.next, record { next = h.next + 1; cell = λ q. if h.next == q then fresh else h.cell q })

  -- The nested loops over the rows and the columns.
  unfoldable pub for_cells : ℕ → ℕ → (ℕ → ℕ → Memory D → Memory D) → Memory D → Memory D
  for_cells rows cols body h = for_range rows 0 (λ m. for_range cols 0 (body m)) h

  abbrev pub same_shape : Memory D → ℕ → ℕ → Bool
  same_shape h a b = (h.cell a).rows == (h.cell b).rows && (h.cell a).cols == (h.cell b).cols

module _ {D : Type 0} ⦃d : Double D⦄ where
  pub matadd : ℕ → ℕ → ℕ → Memory D → Option (Memory D)
  matadd l r res h =
      let rows = (h.cell l).rows in
      let cols = (h.cell l).cols in
      let body = λ (m n : ℕ) (h : Memory D).
        let pos = index cols m n in store res pos (load h l pos ⊕ load h r pos) h in
      if same_shape h l r && same_shape h l res then some (for_cells rows cols body h) else none

  pub matsub : ℕ → ℕ → ℕ → Memory D → Option (Memory D)
  matsub l r res h =
      let rows = (h.cell l).rows in
      let cols = (h.cell l).cols in
      let body = λ (m n : ℕ) (h : Memory D).
        let pos = index cols m n in store res pos (load h l pos ⊖ load h r pos) h in
      if same_shape h l r && same_shape h l res then some (for_cells rows cols body h) else none

  pub mattrn : ℕ → ℕ → Memory D → Option (Memory D)
  mattrn a at h =
      let rows = (h.cell a).rows in
      let cols = (h.cell a).cols in
      let body =
        λ (m n : ℕ) (h : Memory D). store at (index rows n m) (load h a (index cols m n)) h in
      if rows == (h.cell at).cols && cols == (h.cell at).rows && not (a == at)
      then some (for_cells rows cols body h)
      else none

  unfoldable pub matdup : ℕ → ℕ → Memory D → Option (Memory D)
  matdup a ad h =
      let cols = (h.cell a).cols in
      let body =
        λ (m n : ℕ) (h : Memory D). let pos = index cols m n in store ad pos (load h a pos) h in
      if same_shape h a ad then some (for_cells (h.cell a).rows cols body h) else none

  pub matsca : ℕ → ℕ → D → Memory D → Option (Memory D)
  matsca a to scalar h =
      let cols = (h.cell a).cols in
      let body = λ (m n : ℕ) (h : Memory D).
        let pos = index cols m n in store to pos (load h a pos ⊗ scalar) h in
      if same_shape h a to then some (for_cells (h.cell a).rows cols body h) else none

  unfoldable pub matidn : ℕ → Memory D → Memory D
  matidn a h =
      let cols = (h.cell a).cols in
      let body = λ (m n : ℕ). store a (index cols m n) (if m == n then d.unit else d.nought) in
      for_cells (h.cell a).rows cols body h

  unfoldable pub matzro : ℕ → Memory D → Memory D
  matzro a h =
      let cols = (h.cell a).cols in
      for_cells (h.cell a).rows cols (λ m n. store a (index cols m n) d.nought) h

  -- The inner loop of `matmul`, the sum over `k`.
  unfoldable pub dot : Memory D → ℕ → ℕ → ℕ → ℕ → D
  dot h l r i j =
      let add = λ (k : ℕ) (sum : D).
        sum ⊕ load h l (index (h.cell l).cols i k) ⊗ load h r (index (h.cell r).cols k j) in
      for_range (h.cell l).cols 0 add d.nought

  unfoldable pub matmul : ℕ → ℕ → ℕ → Memory D → Option (Memory D)
  matmul l r res h =
      let rows = (h.cell l).rows in
      let cols = (h.cell r).cols in
      let body = λ (i j : ℕ) (h : Memory D). store res (index cols i j) (dot h l r i j) h in
      if (h.cell l).cols == (h.cell r).rows
        && (rows == (h.cell res).rows && cols == (h.cell res).cols)
        && (not (l == res) && not (r == res))
      then some (for_cells rows cols body h)
      else none
