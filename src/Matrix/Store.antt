-- ===== src/Matrix/Store.antt =====
-- Reads behind writes in the memory of src/numerical_basics.c.
use motor_stand.Prelude.{
  ℕ, ◌<◌, ◌≡◌, refl, sym, ap, ◌∙◌, ◌≢◌, ==_refl, ==_of_ne, length, length-set, get_or-set_self,
  get_or-set_ne,
}
use motor_stand.Double.{Double}
use motor_stand.Matrix.{Memory, load, store, written}

module _ {D : Type 0} where
  pub store_at :
      (h : Memory D) (p pos : ℕ) (v : D) → (store p pos v h).cell p ≡ written (h.cell p) pos v
  store_at h p pos v = rw (==_refl p)

  pub store_other :
      (h : Memory D) (p q pos : ℕ) (v : D) → q ≢ p → (store p pos v h).cell q ≡ h.cell q
  store_other h p q pos v ne = rw (==_of_ne p q (λ e. ne (sym e)))

module _ {D : Type 0} ⦃d : Double D⦄ where
  pub load-store_self :
      (h : Memory D) (p pos : ℕ) (v : D)
      → pos < length (h.cell p).vals
      → load (store p pos v h) p pos ≡ v
  load-store_self h p pos v lt = rw (==_refl p) (get_or-set_self (h.cell p).vals pos v d.nought lt)

  pub load-store_ne :
      (h : Memory D) (p pos q : ℕ) (v : D) → pos ≢ q → load (store p pos v h) p q ≡ load h p q
  load-store_ne h p pos q v ne = rw (==_refl p) (get_or-set_ne (h.cell p).vals pos q v d.nought ne)

-- What a loop that writes to `res` alone leaves as it was: the other matrices, and the shape of `res`.
pub record Same (D : Type 0) (res : ℕ) (before after : Memory D) : Type 0 where
  pub others : (q : ℕ) → q ≢ res → after.cell q ≡ before.cell q
  pub rows : (after.cell res).rows ≡ (before.cell res).rows
  pub cols : (after.cell res).cols ≡ (before.cell res).cols
  pub size : length (after.cell res).vals ≡ length (before.cell res).vals
  pub next : after.next ≡ before.next

module _ {D : Type 0} where
  pub Same-refl : (res : ℕ) (h : Memory D) → Same D res h h
  Same-refl res h = record {
    others = λ _ _. refl;
    rows = refl;
    cols = refl;
    size = refl;
    next = refl;
  }

  pub Same-store :
      {res : ℕ} {h h' : Memory D} (pos : ℕ) (v : D)
      → Same D res h h'
      → Same D res h (store res pos v h')
  Same-store {res} {h} {h'} pos v s = record {
    others = λ q ne. store_other h' res q pos v ne ∙ s.others q ne;
    rows = ap (λ a. a.rows) (store_at h' res pos v) ∙ s.rows;
    cols = ap (λ a. a.cols) (store_at h' res pos v) ∙ s.cols;
    size =
        ap (λ a. length a.vals) (store_at h' res pos v)
        ∙ length-set (h'.cell res).vals pos v
        ∙ s.size;
    next = s.next;
  }

  pub Same-trans :
      {res : ℕ} {first second third : Memory D}
      → Same D res first second
      → Same D res second third
      → Same D res first third
  Same-trans s t = record {
    others = λ q ne. t.others q ne ∙ s.others q ne;
    rows = t.rows ∙ s.rows;
    cols = t.cols ∙ s.cols;
    size = t.size ∙ s.size;
    next = t.next ∙ s.next;
  }
