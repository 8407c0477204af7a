-- ===== src/Graph/Hover/First.antt =====
-- Which point the status bar of src/teststandui.c shows.
use motor_stand.Prelude.{
  ℕ, ◌≡◌, refl, ap, Bool, true, false, List, [], ◌∷◌, ◌++◌, All, ◌⊎◌, inl, inr, Bool-cases,
}
use motor_stand.Double.{Double}
use motor_stand.Double.Plots.{Plots}
use motor_stand.Graph.{DataPoint, GraphData}
use motor_stand.Graph.Hover.{hint, distance, point_text, hover_text}

module _ {D : Type 0} ⦃d : Double D⦄ (q : Plots D) (width height : ℕ) (gd : GraphData D) where
  abbrev pub is_near : D → D → DataPoint D → Bool
  is_near mouse_x mouse_y p = d.gt (q.decimal 100 1) (distance q width height gd mouse_x mouse_y p)

  module _ (mouse_x mouse_y : D) where
    abbrev pub ShowsFirst : List (DataPoint D) → List ℕ → Type 0
    ShowsFirst ps text =
        (All (λ p. is_near mouse_x mouse_y p ≡ false) ps × (text ≡ hint))
        ⊎ ((before : List (DataPoint D)) × (after : List (DataPoint D)) × (p : DataPoint D) × (ps
              ≡ before ++ p ∷ after)
            × All (λ r. is_near mouse_x mouse_y r ≡ false) before
            × (is_near mouse_x mouse_y p ≡ true)
            × (text ≡ point_text q width height gd p))

    -- The text is the hint if no point is within ten pixels of the mouse, and else that of the first
    -- point in the order of the trace that is, which need not be the closest.
    pub hover_text-first :
        (ps : List (DataPoint D)) → ShowsFirst ps (hover_text q width height gd mouse_x mouse_y ps)
    unfolding hover_text
    hover_text-first [] = inl (tt, refl)
    hover_text-first (p ∷ ps) = elim (Bool-cases (is_near mouse_x mouse_y p)) [
      | inl near ↦ inr ([], ps, p, refl, tt, near, rw near refl)
      | inr far ↦ elim (hover_text-first ps) [
        | inl (none_near, text) ↦ inl ((far, none_near), rw far text)
        | inr (before, after, r, e, none_before, near, text) ↦
            inr (p ∷ before, after, r, ap (λ t. p ∷ t) e, (far, none_before), near, rw far text)
      ]
    ]
