-- ===== src/Double/Exact.antt =====
-- Exact arithmetic: the laws that `double` has but for its roundings, as a hypothesis for the theorems
-- that say what the closed forms of src/numerical_basics.c solve.
use motor_stand.Prelude.{◌≡◌, sym, ap, ap₂, ◌∙◌, false, true}
use motor_stand.Double.{Double, ◌⊕◌, ◌⊖◌, ◌⊗◌, ◌⊘◌}

pub record IsExact (D : Type 0) ⦃d : Double D⦄ : Type 0 where
  pub add_comm : (a b : D) → a ⊕ b ≡ b ⊕ a
  pub add_assoc : (a b c : D) → (a ⊕ b) ⊕ c ≡ a ⊕ (b ⊕ c)
  pub zero_add : (a : D) → d.nought ⊕ a ≡ a
  pub add_neg : (a : D) → a ⊕ d.neg a ≡ d.nought
  pub sub_eq : (a b : D) → a ⊖ b ≡ a ⊕ d.neg b
  pub mul_comm : (a b : D) → a ⊗ b ≡ b ⊗ a
  pub mul_assoc : (a b c : D) → (a ⊗ b) ⊗ c ≡ a ⊗ (b ⊗ c)
  pub one_mul : (a : D) → d.unit ⊗ a ≡ a
  pub mul_add : (a b c : D) → a ⊗ (b ⊕ c) ≡ a ⊗ b ⊕ a ⊗ c
  pub div_eq : (a b : D) → a ⊘ b ≡ a ⊗ (d.unit ⊘ b)
  pub mul_inv : (a : D) → d.eq a d.nought ≡ false → a ⊗ (d.unit ⊘ a) ≡ d.unit

-- Only zero compares equal to 0.0.
pub record HasExactZero (D : Type 0) ⦃d : Double D⦄ : Type 0 where
  pub eq_nought : (a : D) → d.eq a d.nought ≡ true → a ≡ d.nought

module _ {D : Type 0} ⦃d : Double D⦄ (x : IsExact D) where
  -- Division by what does not compare equal to zero.
  pub mul-div : (a b : D) → d.eq b d.nought ≡ false → b ⊗ (a ⊘ b) ≡ a
  mul-div a b ne =
      ap (λ t. b ⊗ t) (x.div_eq a b ∙ x.mul_comm a _)
      ∙ sym (x.mul_assoc b _ a)
      ∙ ap (λ t. t ⊗ a) (x.mul_inv b ne)
      ∙ x.one_mul a

  pub add_left_comm : (a b c : D) → a ⊕ (b ⊕ c) ≡ b ⊕ (a ⊕ c)
  add_left_comm a b c =
      sym (x.add_assoc a b c) ∙ ap (λ t. t ⊕ c) (x.add_comm a b) ∙ x.add_assoc b a c

  pub mul_left_comm : (a b c : D) → a ⊗ (b ⊗ c) ≡ b ⊗ (a ⊗ c)
  mul_left_comm a b c =
      sym (x.mul_assoc a b c) ∙ ap (λ t. t ⊗ c) (x.mul_comm a b) ∙ x.mul_assoc b a c

  pub add_zero : (a : D) → a ⊕ d.nought ≡ a
  add_zero a = x.add_comm a d.nought ∙ x.zero_add a

  pub add_mul : (a b c : D) → (a ⊕ b) ⊗ c ≡ a ⊗ c ⊕ b ⊗ c
  add_mul a b c =
      x.mul_comm (a ⊕ b) c ∙ x.mul_add c a b ∙ ap₂ (λ s t. s ⊕ t) (x.mul_comm c a) (x.mul_comm c b)

  neg_add_left : (a b : D) → d.neg a ⊕ (a ⊕ b) ≡ b
  neg_add_left a b =
      sym (x.add_assoc (d.neg a) a b)
      ∙ ap (λ t. t ⊕ b) (x.add_comm (d.neg a) a ∙ x.add_neg a)
      ∙ x.zero_add b

  pub cancel : (a b c : D) → a ⊕ b ≡ a ⊕ c → b ≡ c
  cancel a b c e = sym (neg_add_left a b) ∙ ap (λ t. d.neg a ⊕ t) e ∙ neg_add_left a c

  pub mul_zero : (a : D) → a ⊗ d.nought ≡ d.nought
  mul_zero a = cancel (a ⊗ d.nought) (a ⊗ d.nought) d.nought (
      sym (x.mul_add a d.nought d.nought)
      ∙ ap (λ t. a ⊗ t) (x.zero_add d.nought)
      ∙ sym (add_zero (a ⊗ d.nought)))

  pub mul_neg : (a b : D) → a ⊗ d.neg b ≡ d.neg (a ⊗ b)
  mul_neg a b = cancel (a ⊗ b) (a ⊗ d.neg b) (d.neg (a ⊗ b)) (
      sym (x.mul_add a b (d.neg b))
      ∙ ap (λ t. a ⊗ t) (x.add_neg b)
      ∙ mul_zero a
      ∙ sym (x.add_neg (a ⊗ b)))

  pub zero_mul : (a : D) → d.nought ⊗ a ≡ d.nought
  zero_mul a = x.mul_comm d.nought a ∙ mul_zero a

  combine : (a b c e k l : D) → (a ⊗ k ⊕ b ⊗ l) ⊕ (c ⊗ k ⊕ e ⊗ l) ≡ (a ⊕ c) ⊗ k ⊕ (b ⊕ e) ⊗ l
  combine a b c e k l = simp (add_mul, x.add_assoc, add_left_comm)

  share : (a b e w : D) → a ⊗ ((b ⊘ e) ⊗ w) ≡ (a ⊗ b) ⊗ ((d.unit ⊘ e) ⊗ w)
  share a b e w =
      ap (λ t. a ⊗ t) (ap (λ t. t ⊗ w) (x.div_eq b e) ∙ x.mul_assoc b (d.unit ⊘ e) w)
      ∙ sym (x.mul_assoc a b _)

  -- A row of a product by a matrix whose entries are quotients.
  row :
      (a b c e u v : D)
      → a ⊗ (d.nought ⊕ (b ⊘ e) ⊗ u ⊕ (c ⊘ e) ⊗ v)
        ≡ (a ⊗ b) ⊗ ((d.unit ⊘ e) ⊗ u) ⊕ (a ⊗ c) ⊗ ((d.unit ⊘ e) ⊗ v)
  row a b c e u v =
      ap (λ t. a ⊗ (t ⊕ (c ⊘ e) ⊗ v)) (x.zero_add _)
      ∙ x.mul_add a _ _
      ∙ ap₂ (λ s t. s ⊕ t) (share a b e u) (share a c e v)

  pub inverse_cancels : (a u : D) → d.eq a d.nought ≡ false → a ⊗ ((d.unit ⊘ a) ⊗ u) ≡ u
  inverse_cancels a u ne = sym (x.mul_assoc a _ u) ∙ ap (λ t. t ⊗ u) (x.mul_inv a ne) ∙ x.one_mul u

  opposite : (a b : D) → a ⊗ d.neg b ⊕ b ⊗ a ≡ d.nought
  opposite a b =
      ap₂ (λ s t. s ⊕ t) (mul_neg a b) (x.mul_comm b a) ∙ x.add_comm _ _ ∙ x.add_neg (a ⊗ b)

  -- The solution of two linear equations, as the inverse of a 2 by 2 matrix gives it.
  module _ (p q r s u v : D) where
    abbrev det : D
    det = p ⊗ s ⊖ q ⊗ r

    abbrev pub first_unknown : D
    first_unknown = d.nought ⊕ (s ⊘ det) ⊗ u ⊕ (d.neg q ⊘ det) ⊗ v

    abbrev pub second_unknown : D
    second_unknown = d.nought ⊕ (d.neg r ⊘ det) ⊗ u ⊕ (p ⊘ det) ⊗ v

    expand :
        (a b : D)
        → a ⊗ first_unknown ⊕ b ⊗ second_unknown
          ≡ (a ⊗ s ⊕ b ⊗ d.neg r) ⊗ ((d.unit ⊘ det) ⊗ u)
            ⊕ (a ⊗ d.neg q ⊕ b ⊗ p) ⊗ ((d.unit ⊘ det) ⊗ v)
    expand a b =
        ap₂ (λ s t. s ⊕ t) (row a s (d.neg q) det u v) (row b (d.neg r) p det u v)
        ∙ combine (a ⊗ s) (a ⊗ d.neg q) (b ⊗ d.neg r) (b ⊗ p) _ _

    diagonal : p ⊗ s ⊕ q ⊗ d.neg r ≡ det
    diagonal = ap (λ t. p ⊗ s ⊕ t) (mul_neg q r) ∙ sym (x.sub_eq _ _)

    other_diagonal : r ⊗ d.neg q ⊕ s ⊗ p ≡ det
    other_diagonal =
        x.add_comm _ _
        ∙ ap₂ (λ a b. a ⊕ b) (x.mul_comm s p) (mul_neg r q ∙ ap d.neg (x.mul_comm r q))
        ∙ sym (x.sub_eq _ _)

    anti_diagonal : r ⊗ s ⊕ s ⊗ d.neg r ≡ d.nought
    anti_diagonal = x.add_comm _ _ ∙ opposite s r

    pub cramer :
        d.eq det d.nought ≡ false
        → (p ⊗ first_unknown ⊕ q ⊗ second_unknown ≡ u)
          × (r ⊗ first_unknown ⊕ s ⊗ second_unknown ≡ v)
    cramer ne =
        let k = (d.unit ⊘ det) ⊗ u in
        let l = (d.unit ⊘ det) ⊗ v in
        (
          expand p q
              ∙ ap₂ (λ a b. a ⊗ k ⊕ b ⊗ l) diagonal (opposite p q)
              ∙ ap₂ (λ a b. a ⊕ b) (inverse_cancels det u ne) (zero_mul _)
              ∙ add_zero u,
          expand r s
              ∙ ap₂ (λ a b. a ⊗ k ⊕ b ⊗ l) anti_diagonal other_diagonal
              ∙ ap₂ (λ a b. a ⊕ b) (zero_mul _) (inverse_cancels det v ne)
              ∙ x.zero_add v,
        )
