-- ===== src/Graph/Window/Label.antt =====
-- The label of the start button of src/teststandui.c.
use motor_stand.Prelude.{
  ℕ, ◌≡◌, refl, sym, ◌∙◌, true, false, not, ◌&&◌, Bool, Bool-cases, inl, inr, Option, none, some,
  if◌then◌else◌, ◌==◌, arith,
}
use motor_stand.Prelude.Text.{codes}
use motor_stand.Double.{Double}
use motor_stand.Double.Plots.{Plots}
use motor_stand.LoadCell.{OutputData}
use motor_stand.Graph.{
  DataPoint, Glib, Viewer, on_start_stop_clicked, on_test_toggled, on_tick_timer,
  idle_handle_output, test_timer_cb, on_reset_clicked, log_new_data, reset_graph_data, is_built,
}
use motor_stand.Graph.Hover.{on_motion_event}
use motor_stand.Graph.Window.{
  Window, activated, label_shown, UiEvent, clicked, reset_clicked, toggled, ticked, idle, timed,
  moved, Reached, start, then_,
}
use motor_stand.Graph.Window.Recording.{has_source, start_stop-is_recording}

and_left : (a b : Bool) → (a && b) ≡ true → a ≡ true
and_left a b h = ground arith

if_not : (b : Bool) → (if b then false else true) ≡ not b
if_not b = ground arith

module _ {D : Type 0} where
  -- A client that records has the label "Stop Recording" on its button.
  abbrev pub IsLabelled : Viewer D → Type 0
  IsLabelled v = v.graph.is_recording ≡ true → label_shown v.calls ≡ codes "Stop Recording"

  abbrev KeepsLabel : Viewer D → Viewer D → Type 0
  KeepsLabel v u = IsLabelled v → IsLabelled u

  KeepsLabel-if :
      (b : Bool) (v x y : Viewer D)
      → KeepsLabel v x
      → KeepsLabel v y
      → KeepsLabel v (if b then x else y)
  KeepsLabel-if true v x y h k = h
  KeepsLabel-if false v x y h k = k

  start_stop-KeepsLabel : (v : Viewer D) → KeepsLabel v (on_start_stop_clicked true v)
  unfolding on_start_stop_clicked
  start_stop-KeepsLabel v =
      KeepsLabel-if (not v.graph.has_data_input && not v.graph.test_mode) v _ _ (λ h. h)
        (KeepsLabel-if v.graph.is_recording v _ _ (λ h on. ground arith) (λ h on. refl))

  toggled-KeepsLabel :
      (active : Bool) (id : ℕ) (v : Viewer D) → KeepsLabel v (on_test_toggled active id v)
  unfolding on_test_toggled
  toggled-KeepsLabel true id v = λ h. h
  toggled-KeepsLabel false id v = KeepsLabel-if (v.graph.test_timer_id == 0) v _ _ (λ h. h) (λ h. h)

  ticked-KeepsLabel :
      (data_ : Option (OutputData D)) (memory : Bool) (v : Viewer D)
      → KeepsLabel v (on_tick_timer data_ memory v)
  unfolding on_tick_timer
  ticked-KeepsLabel none memory v = λ h. h
  ticked-KeepsLabel (some output) memory v =
      KeepsLabel-if (is_built v && memory) v _ _ (λ h. h) (λ h. h)

  label-if :
      (b : Bool) (v x y : Viewer D)
      → label_shown x.calls ≡ label_shown v.calls
      → label_shown y.calls ≡ label_shown v.calls
      → label_shown (if b then x else y).calls ≡ label_shown v.calls
  label-if true v x y e f = e
  label-if false v x y e f = f

  label-start_stop_null :
      (v : Viewer D) → label_shown (on_start_stop_clicked false v).calls ≡ label_shown v.calls
  unfolding on_start_stop_clicked
  label-start_stop_null v =
      label-if (not v.graph.has_data_input && not v.graph.test_mode) v _ _ refl
        (label-if v.graph.is_recording v _ _ refl refl)

module _ {D : Type 0} ⦃d : Double D⦄ (q : Plots D) where
  label-reset : (v : Viewer D) → label_shown (on_reset_clicked q v).calls ≡ label_shown v.calls
  unfolding on_reset_clicked reset_graph_data
  label-reset v =
      let stopped = if v.graph.is_recording then on_start_stop_clicked false v else v in
      label-if stopped.graph.list_store stopped _ _ refl refl
      ∙ label-if v.graph.is_recording v _ _ (label-start_stop_null v) refl

  reset-is_recording :
      (v : Viewer D)
      → (on_reset_clicked q v).graph.is_recording ≡ (v.graph.is_recording && not (has_source v))
  unfolding on_reset_clicked reset_graph_data
  reset-is_recording v = elim (Bool-cases v.graph.is_recording) [
    | inl on ↦ rw on (
        start_stop-is_recording false (record v { graph = record v.graph { is_recording = true } })
        ∙ if_not (has_source v))
    | inr off ↦ rw off refl
  ]

  module _ (g : Glib (DataPoint D)) where
    log-KeepsLabel :
        (val : D) (v u : Viewer D) → KeepsLabel v u → KeepsLabel v (log_new_data q g val u)
    unfolding log_new_data
    log-KeepsLabel val v u k = k

    UiEvent-KeepsLabel : {w u : Window D} → UiEvent D q g w u → KeepsLabel w.viewer u.viewer
    unfolding idle_handle_output test_timer_cb on_motion_event
    UiEvent-KeepsLabel (clicked w) = start_stop-KeepsLabel w.viewer
    UiEvent-KeepsLabel (reset_clicked w) =
        λ h on. label-reset w.viewer ∙ h (and_left _ _ (sym (reset-is_recording w.viewer) ∙ on))
    UiEvent-KeepsLabel (toggled id w fresh) = toggled-KeepsLabel (not w.active) id w.viewer
    UiEvent-KeepsLabel (ticked data_ memory w) = ticked-KeepsLabel data_ memory w.viewer
    UiEvent-KeepsLabel (idle output rest w e) =
        KeepsLabel-if w.viewer.graph.is_recording w.viewer _ _
          (log-KeepsLabel _ w.viewer _ (λ h. h)) (λ h. h)
    UiEvent-KeepsLabel (timed random id ids w e) =
        KeepsLabel-if _ w.viewer _ _ (log-KeepsLabel _ w.viewer _ (λ h. h)) (λ h. h)
    UiEvent-KeepsLabel (moved width height x y w) = λ h. h

    labelled : {w : Window D} → Reached D q g w → IsLabelled w.viewer
    unfolding activated
    labelled start = λ on. refl
    labelled (then_ r s) = UiEvent-KeepsLabel s (labelled r)

    -- After any events, the button of a client that records is labelled "Stop Recording". A reset stops the
    -- recording only if there is a data source, and never changes the label.
    pub Reached-label :
        {w : Window D}
        → Reached D q g w
        → let v = w.viewer in
          let u = on_reset_clicked q v in
          IsLabelled v
          × (u.graph.is_recording ≡ (v.graph.is_recording && not (has_source v)))
          × (label_shown u.calls ≡ label_shown v.calls)
    Reached-label {w} r = (labelled r, reset-is_recording w.viewer, label-reset w.viewer)
