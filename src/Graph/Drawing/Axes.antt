-- ===== src/Graph/Drawing/Axes.antt =====
-- Where the grid, the ticks and the newest point of the drawing of src/teststandui.c are, in exact
-- arithmetic.
use motor_stand.Prelude.{ℕ, ◌≡◌, sym, ap, ◌∙◌, true, false}
use motor_stand.Double.{Double, ◌⊕◌, ◌⊖◌, ◌⊗◌, ◌⊘◌}
use motor_stand.Double.Exact.{IsExact, mul_left_comm, inverse_cancels}
use motor_stand.Double.Plots.{Plots}
use motor_stand.Graph.{GraphData}
use motor_stand.Graph.Drawing.{
  graph_width, bottom, int, scale_x, scale_y, screen_x, screen_y, grid_y, tick_value, grid_x,
  fraction, tick_x, margin_left,
}

module _ {D : Type 0} ⦃d : Double D⦄ (x : IsExact D) (q : Plots D) (width height : ℕ) where
  module _ (gd : GraphData D) where
    -- A share of the whole, scaled.
    scaled : (a b c g : D) → d.eq a d.nought ≡ false → ((a ⊗ b) ⊘ c) ⊗ (g ⊘ a) ≡ (g ⊗ b) ⊘ c
    scaled a b c g ne =
        let v = d.unit ⊘ c in
        let w = d.unit ⊘ a in
        ap (λ t. t ⊗ (g ⊘ a)) (x.div_eq (a ⊗ b) c ∙ x.mul_assoc a b v)
        ∙ x.mul_assoc a (b ⊗ v) (g ⊘ a)
        ∙ ap (λ t. a ⊗ t)
            (ap (λ t. (b ⊗ v) ⊗ t) (x.div_eq g a)
              ∙ x.mul_comm (b ⊗ v) (g ⊗ w)
              ∙ x.mul_assoc g w (b ⊗ v)
              ∙ mul_left_comm x g w (b ⊗ v))
        ∙ inverse_cancels x a (g ⊗ (b ⊗ v)) ne
        ∙ sym (x.mul_assoc g b v)
        ∙ sym (x.div_eq (g ⊗ b) c)

    -- In exact arithmetic and for a positive max_y, each horizontal grid line is at the height at which
    -- the value of its tick is drawn.
    pub screen_y-tick_value :
        (i : ℕ)
        → d.gt gd.max_y d.nought ≡ true
        → d.eq gd.max_y d.nought ≡ false
        → screen_y q width height gd (tick_value q width height gd i) ≡ grid_y q width height gd i
    unfolding screen_y scale_y tick_value grid_y
    screen_y-tick_value i positive ne =
        rw positive (ap (λ t. d.of_long (bottom height) ⊖ t) (scaled gd.max_y (int i) _ _ ne))

    -- In exact arithmetic, with the literal 4.0 read as 4, each vertical grid line is above the tick of
    -- its time.
    pub grid_x-tick_x :
        (i : ℕ) → q.decimal 40 1 ≡ int 4 → grid_x q width height gd i ≡ tick_x q width height gd i
    unfolding grid_x tick_x fraction
    grid_x-tick_x i four =
        let v = d.unit ⊘ int 4 in
        let w = d.of_long (graph_width width) in
        ap (λ t. int margin_left ⊕ t)
          (x.div_eq (w ⊗ int i) (int 4)
            ∙ x.mul_assoc w (int i) v
            ∙ x.mul_comm w (int i ⊗ v)
            ∙ ap (λ t. t ⊗ w) (sym (x.div_eq (int i) (int 4)) ∙ ap (λ t. int i ⊘ t) (sym four)))

    -- In exact arithmetic and for a positive max_x, a point at the time max_x is drawn where the graph
    -- ends.
    pub screen_x-max_x :
        d.gt gd.max_x d.nought ≡ true
        → d.eq gd.max_x d.nought ≡ false
        → screen_x q width height gd gd.max_x ≡ int margin_left ⊕ d.of_long (graph_width width)
    unfolding screen_x scale_x
    screen_x-max_x positive ne =
        let w = d.unit ⊘ gd.max_x in
        rw positive (
          ap (λ t. int margin_left ⊕ t)
            (ap (λ t. gd.max_x ⊗ t) (x.div_eq _ gd.max_x ∙ x.mul_comm _ w)
              ∙ inverse_cancels x gd.max_x _ ne))
