-- ===== src/Graph/Window/Peak.antt =====
-- The scale of the graph of src/teststandui.c: no point of the trace is above the maximum from which
-- max_y is computed.
use motor_stand.Prelude.{
  ℕ, ◌≡◌, refl, sym, ap, ◌∙◌, true, false, not, ◌&&◌, ◌||◌, Bool, Bool-cases, ◌⊎◌, inl, inr, Option,
  none, some, List, [], ◌∷◌, All, if◌then◌else◌, ◌==◌,
}
use motor_stand.Double.{Double, ◌⊗◌}
use motor_stand.Double.Order.{IsOrder}
use motor_stand.Double.Plots.{Plots}
use motor_stand.LoadCell.{OutputData}
use motor_stand.Graph.{
  DataPoint, Glib, Viewer, peak, peak_or_one, on_start_stop_clicked, on_test_toggled, on_tick_timer,
  idle_handle_output, test_timer_cb, on_reset_clicked, log_new_data, reset_graph_data, is_built,
}
use motor_stand.Graph.Hover.{on_motion_event}
use motor_stand.Graph.Window.{
  Window, activated, UiEvent, clicked, reset_clicked, toggled, ticked, idle, timed, moved, Reached,
  start, then_,
}

module _ {D : Type 0} ⦃d : Double D⦄ where
  abbrev pub IsBelow : D → List (DataPoint D) → Type 0
  IsBelow m ps = All (λ p. d.gt p.y_value m ≡ false) ps

  peak-nil : (m : D) → peak m [] ≡ m
  unfolding peak
  peak-nil m = refl

  peak-above :
      (m : D) (p : DataPoint D) (ps : List (DataPoint D))
      → d.gt p.y_value m ≡ true
      → peak m (p ∷ ps) ≡ peak p.y_value ps
  unfolding peak
  peak-above m p ps e = rw e refl

  peak-below :
      (m : D) (p : DataPoint D) (ps : List (DataPoint D))
      → d.gt p.y_value m ≡ false
      → peak m (p ∷ ps) ≡ peak m ps
  unfolding peak
  peak-below m p ps e = rw e refl

  -- The points are below a maximum, and max_y is a tenth above it.
  abbrev pub IsScaled : Plots D → List (DataPoint D) → D → Type 0
  IsScaled q points max_y =
      (points ≡ []) ⊎ ((m : D) × IsBelow m points × (max_y ≡ m ⊗ q.decimal 11 1))

  module _ (o : IsOrder D) where
    peak-bounds :
        (m r : D) (ps : List (DataPoint D))
        → peak m ps ≡ r
        → d.eq m m ≡ true
        → IsBelow r ps × (d.gt m r ≡ false) × (d.eq r r ≡ true)
    peak-bounds m r [] e h =
        let e' = sym (peak-nil m) ∙ e in
        (tt, ap (λ t. d.gt m t) (sym e') ∙ o.irrefl m, ap (λ t. d.eq t t) (sym e') ∙ h)
    peak-bounds m r (p ∷ ps) e h = elim (Bool-cases (d.gt p.y_value m)) [
      | inl above ↦
          let ordered = o.gt_ordered _ _ above in
          let (rest, top, final) =
            peak-bounds p.y_value r ps (sym (peak-above m p ps above) ∙ e) ordered in
          ((top, rest), o.le_trans m p.y_value r ordered (o.asym _ _ above) top, final)
      | inr below ↦
          let (rest, top, final) = peak-bounds m r ps (sym (peak-below m p ps below) ∙ e) h in
          ((o.le_trans p.y_value m r h below top, rest), top, final)
    ]

    IsBelow-trans :
        (m l : D) (ps : List (DataPoint D))
        → d.eq m m ≡ true
        → d.gt m l ≡ false
        → IsBelow m ps
        → IsBelow l ps
    IsBelow-trans m l [] h e b = tt
    IsBelow-trans m l (p ∷ ps) h e b =
        (o.le_trans p.y_value m l h b.0 e, IsBelow-trans m l ps h e b.1)

    peak_or_one-IsBelow : (ps : List (DataPoint D)) → IsBelow (peak_or_one (peak d.nought ps)) ps
    unfolding peak_or_one
    peak_or_one-IsBelow ps =
        let m = peak d.nought ps in
        let (below, top, ordered) = peak-bounds d.nought m ps refl o.nought_ordered in
        elim (Bool-cases (d.gt d.nought m || d.eq m d.nought)) [
          | inl low ↦ rw low (IsBelow-trans m d.unit ps ordered (o.below_unit m low) below)
          | inr high ↦ rw high below
        ]

    module _ (q : Plots D) (g : Glib (DataPoint D)) where
      abbrev Keeps : Viewer D → Viewer D → Type 0
      Keeps v u = IsScaled q v.graph.points v.graph.max_y → IsScaled q u.graph.points u.graph.max_y

      Keeps-if :
          (b : Bool) (v x y : Viewer D) → Keeps v x → Keeps v y → Keeps v (if b then x else y)
      Keeps-if true v x y h k = h
      Keeps-if false v x y h k = k

      start_stop-Keeps : (button : Bool) (v : Viewer D) → Keeps v (on_start_stop_clicked button v)
      unfolding on_start_stop_clicked
      start_stop-Keeps button v =
          Keeps-if (not v.graph.has_data_input && not v.graph.test_mode) v _ _ (λ h. h)
            (Keeps-if v.graph.is_recording v _ _ (λ h. h) (λ h. h))

      toggled-Keeps :
          (active : Bool) (id : ℕ) (v : Viewer D) → Keeps v (on_test_toggled active id v)
      unfolding on_test_toggled
      toggled-Keeps true id v = λ h. h
      toggled-Keeps false id v = Keeps-if (v.graph.test_timer_id == 0) v _ _ (λ h. h) (λ h. h)

      ticked-Keeps :
          (data_ : Option (OutputData D)) (memory : Bool) (v : Viewer D)
          → Keeps v (on_tick_timer data_ memory v)
      unfolding on_tick_timer
      ticked-Keeps none memory v = λ h. h
      ticked-Keeps (some output) memory v = Keeps-if (is_built v && memory) v _ _ (λ h. h) (λ h. h)

      log-Keeps : (val : D) (v u : Viewer D) → Keeps v (log_new_data q g val u)
      unfolding log_new_data
      log-Keeps val v u = λ h. inr (_, peak_or_one-IsBelow _, refl)

      UiEvent-Keeps : {w u : Window D} → UiEvent D q g w u → Keeps w.viewer u.viewer
      unfolding on_reset_clicked reset_graph_data idle_handle_output test_timer_cb on_motion_event
      UiEvent-Keeps (clicked w) = start_stop-Keeps true w.viewer
      UiEvent-Keeps (reset_clicked w) = λ h. inl refl
      UiEvent-Keeps (toggled id w fresh) = toggled-Keeps (not w.active) id w.viewer
      UiEvent-Keeps (ticked data_ memory w) = ticked-Keeps data_ memory w.viewer
      UiEvent-Keeps (idle output rest w e) =
          Keeps-if w.viewer.graph.is_recording w.viewer _ _ (log-Keeps _ w.viewer _) (λ h. h)
      UiEvent-Keeps (timed random id ids w e) =
          Keeps-if _ w.viewer _ _ (log-Keeps _ w.viewer _) (λ h. h)
      UiEvent-Keeps (moved width height x y w) = λ h. h

      -- After any events, either there are no points, or no point is above the maximum of which max_y is the
      -- 1.1-fold, even for values that are not numbers.
      pub Reached-max_y :
          {w : Window D} → Reached D q g w → IsScaled q w.viewer.graph.points w.viewer.graph.max_y
      unfolding activated
      Reached-max_y start = inl refl
      Reached-max_y (then_ r s) = UiEvent-Keeps s (Reached-max_y r)
