-- ===== src/Matrix/Entries.antt =====
-- The abstract view of a matrix of src/numerical_basics.c: its entries by row and column.
use native.Mathlib.Nat.{mod-eq_of_lt, mul-add-mod_self_right, div-eq_of_lt-le}
use native.Mathlib.Decide.{ℕ_discrete}
use motor_stand.Prelude.{
  ℕ, ◌+◌, ◌*◌, ◌/◌, ◌%◌, ◌^◌, ◌≤◌, ◌<◌, ◌≡◌, sym, ap, ◌∙◌, arith, Option, none, some, length,
  get_or, true,
}
use motor_stand.Double.{Double}
use motor_stand.Matrix.{Memory, index, load, same_shape}
use motor_stand.Matrix.Store.{Same}

-- A matrix with room for its entries, whose positions fit 32 bits.
pub record IsMat (D : Type 0) (h : Memory D) (p : ℕ) : Type 0 where
  pub size : length (h.cell p).vals ≡ (h.cell p).rows * (h.cell p).cols
  pub small : (h.cell p).rows * (h.cell p).cols ≤ 2 ^ 32

pub record SameShape (D : Type 0) (h : Memory D) (p q : ℕ) : Type 0 where
  pub rows : (h.cell p).rows ≡ (h.cell q).rows
  pub cols : (h.cell p).cols ≡ (h.cell q).cols

pub same_shape-SameShape :
    {D : Type 0} (h : Memory D) (p q : ℕ) → SameShape D h p q → same_shape h p q ≡ true
same_shape-SameShape h p q s = ground arith

pub row_major : (rows cols i j : ℕ) → i < rows → j < cols → i * cols + j < rows * cols
row_major rows cols i j hi hj = grind arith

pub index-row_major :
    (rows cols i j : ℕ) → i < rows → j < cols → rows * cols ≤ 2 ^ 32 → index cols i j ≡ i * cols + j
index-row_major rows cols i j hi hj small =
    let below = row_major rows cols i j hi hj in mod-eq_of_lt (omega arith) ∙ omega arith

pub row_major-injective :
    (cols m n i j : ℕ) → n < cols → j < cols → m * cols + n ≡ i * cols + j → (m ≡ i) × (n ≡ j)
row_major-injective cols m n i j hn hj e = (
  sym (div-eq_of_lt-le cols (omega arith) (grind arith))
      ∙ ap (λ t. t / cols) e
      ∙ div-eq_of_lt-le cols (omega arith) (grind arith),
  sym (mul-add-mod_self_right m cols n ∙ mod-eq_of_lt hn)
      ∙ ap (λ t. t % cols) e
      ∙ mul-add-mod_self_right i cols j
      ∙ mod-eq_of_lt hj,
)

module _ {D : Type 0} ⦃d : Double D⦄ where
  abbrev pub entry : Memory D → ℕ → ℕ → ℕ → D
  entry h p i j = load h p (i * (h.cell p).cols + j)

  -- `a` and `b` agree at the rows and columns of `p`.
  abbrev pub Agree : Memory D → ℕ → (ℕ → ℕ → D) → (ℕ → ℕ → D) → Type 0
  Agree h p a b = (i j : ℕ) → i < (h.cell p).rows → j < (h.cell p).cols → a i j ≡ b i j

  -- The call does not abort, changes nothing but the entries of `res`, and these are as wanted.
  abbrev pub Gives : Memory D → ℕ → (ℕ → ℕ → D) → Option (Memory D) → Type 0
  Gives h₀ res wanted none = ⊥
  Gives h₀ res wanted (some h) = Same D res h₀ h × Agree h₀ res (entry h res) wanted

  -- While only `res` was written, and it not at `pos`, every matrix reads as before at `pos`.
  pub load-Same :
      {res : ℕ} {h₀ h : Memory D} (p pos : ℕ)
      → Same D res h₀ h
      → load h res pos ≡ load h₀ res pos
      → load h p pos ≡ load h₀ p pos
  load-Same {res} p pos s e = elim (ℕ_discrete p res) [
    | yes at ↦ rw at e
    | no other ↦ ap (λ a. get_or a.vals pos d.nought) (s.others p other)
  ]

pub IsMat-Same :
    {D : Type 0} {res : ℕ} {h₀ h : Memory D} (p : ℕ) → Same D res h₀ h → IsMat D h₀ p → IsMat D h p
IsMat-Same {res} p s v = elim (ℕ_discrete p res) [
  | yes at ↦
      let v' = rw at at v in
      rw at (record {
        size = rw (s.size, s.rows, s.cols) v'.size;
        small = rw (s.rows, s.cols) v'.small;
      })
  | no other ↦ let e = s.others p other in record { size = rw e v.size; small = rw e v.small }
]
