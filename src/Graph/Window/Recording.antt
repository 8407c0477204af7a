-- ===== src/Graph/Window/Recording.antt =====
-- When src/teststandui.c records.
use motor_stand.Prelude.{
  ℕ, ◌≡◌, refl, true, false, not, ◌&&◌, ◌||◌, Bool, Bool-cases, inl, inr, ◌⊎◌, Option, none, some,
  [], if◌then◌else◌, ◌==◌, arith,
}
use motor_stand.Double.{Double}
use motor_stand.Double.Plots.{Plots}
use motor_stand.LoadCell.{OutputData}
use motor_stand.Graph.{
  DataPoint, Glib, Viewer, on_start_stop_clicked, on_test_toggled, on_tick_timer,
  idle_handle_output, test_timer_cb, on_reset_clicked, reset_graph_data, is_built,
}
use motor_stand.Graph.Hover.{on_motion_event}
use motor_stand.Graph.Window.{
  Window, table, UiEvent, clicked, reset_clicked, toggled, ticked, idle, timed, moved,
}

module _ {D : Type 0} where
  -- A data source, as the click on the start button asks for it.
  abbrev pub has_source : Viewer D → Bool
  has_source v = v.graph.has_data_input || v.graph.test_mode

  -- Unless the client records already, the table keeps its rows or is cleared, and recording does not
  -- start without a data source.
  abbrev pub IsQuiet : Viewer D → Viewer D → Type 0
  IsQuiet v u =
      ((table u.calls ≡ table v.calls) ⊎ (table u.calls ≡ []))
      × (u.graph.is_recording ≡ true → has_source v ≡ true)

  quiet : (v : Viewer D) → v.graph.is_recording ≡ false → IsQuiet v v
  quiet v off = (inl refl, λ on. ground arith)

  IsQuiet-if :
      (b : Bool) (v x y : Viewer D) → IsQuiet v x → IsQuiet v y → IsQuiet v (if b then x else y)
  IsQuiet-if true v x y h k = h
  IsQuiet-if false v x y h k = k

  start_stop-IsQuiet :
      (button : Bool) (v : Viewer D)
      → v.graph.is_recording ≡ false
      → IsQuiet v (on_start_stop_clicked button v)
  unfolding on_start_stop_clicked
  start_stop-IsQuiet button v off =
      elim (Bool-cases (not v.graph.has_data_input && not v.graph.test_mode)) [
        | inl e ↦ rw e (quiet v off)
        | inr e ↦ rw (e, off) (inl refl, λ on. ground arith)
      ]

  toggled-IsQuiet :
      (active : Bool) (id : ℕ) (v : Viewer D)
      → v.graph.is_recording ≡ false
      → IsQuiet v (on_test_toggled active id v)
  unfolding on_test_toggled
  toggled-IsQuiet true id v off = (inl refl, λ on. ground arith)
  toggled-IsQuiet false id v off =
      IsQuiet-if (v.graph.test_timer_id == 0) v _ _ (inl refl, λ on. ground arith)
        (inl refl, λ on. ground arith)

  ticked-IsQuiet :
      (data_ : Option (OutputData D)) (memory : Bool) (v : Viewer D)
      → v.graph.is_recording ≡ false
      → IsQuiet v (on_tick_timer data_ memory v)
  unfolding on_tick_timer
  ticked-IsQuiet none memory v off = quiet v off
  ticked-IsQuiet (some output) memory v off =
      IsQuiet-if (is_built v && memory) v _ _ (inl refl, λ on. ground arith) (quiet v off)

  -- What a click does to the recording.
  pub start_stop-is_recording :
      (button : Bool) (v : Viewer D)
      → (on_start_stop_clicked button v).graph.is_recording
        ≡ (if has_source v then not v.graph.is_recording else v.graph.is_recording)
  unfolding on_start_stop_clicked
  start_stop-is_recording button v = elim (Bool-cases v.graph.is_recording) [
    | inl on ↦ elim (Bool-cases v.graph.has_data_input) [
      | inl e ↦ rw (on, e) refl
      | inr e ↦ elim (Bool-cases v.graph.test_mode) [
        | inl f ↦ rw (on, e, f) refl
        | inr f ↦ rw (on, e, f) refl
      ]
    ]
    | inr off ↦ elim (Bool-cases v.graph.has_data_input) [
      | inl e ↦ rw (off, e) refl
      | inr e ↦ elim (Bool-cases v.graph.test_mode) [
        | inl f ↦ rw (off, e, f) refl
        | inr f ↦ rw (off, e, f) refl
      ]
    ]
  ]

module _ {D : Type 0} ⦃d : Double D⦄ (q : Plots D) (g : Glib (DataPoint D)) where
  reset-IsQuiet : (v : Viewer D) → v.graph.is_recording ≡ false → IsQuiet v (on_reset_clicked q v)
  unfolding on_reset_clicked reset_graph_data
  reset-IsQuiet v off = rw off (elim (Bool-cases v.graph.list_store) [
    | inl there ↦ rw there (inr refl, λ on. ground arith)
    | inr missing ↦ rw missing (inl refl, λ on. ground arith)
  ])

  timer-IsQuiet :
      (random : ℕ) (v : Viewer D)
      → v.graph.is_recording ≡ false
      → IsQuiet v (test_timer_cb q g random v)
  unfolding test_timer_cb
  timer-IsQuiet random v off = elim (Bool-cases (is_built v)) [
    | inl built ↦ rw (built, off) (inl refl, λ on. ground arith)
    | inr missing ↦ rw missing (quiet v off)
  ]

  -- A step from a state that does not record keeps the rows of the table or clears them, and leads to one
  -- that records only if there is a data source.
  pub UiEvent-IsQuiet :
      {w u : Window D}
      → UiEvent D q g w u
      → w.viewer.graph.is_recording ≡ false
      → IsQuiet w.viewer u.viewer
  unfolding idle_handle_output on_motion_event
  UiEvent-IsQuiet (clicked w) off = start_stop-IsQuiet true w.viewer off
  UiEvent-IsQuiet (reset_clicked w) off = reset-IsQuiet w.viewer off
  UiEvent-IsQuiet (toggled id w fresh) off = toggled-IsQuiet (not w.active) id w.viewer off
  UiEvent-IsQuiet (ticked data_ memory w) off = ticked-IsQuiet data_ memory w.viewer off
  UiEvent-IsQuiet (idle output rest w e) off = rw off (inl refl, λ on. ground arith)
  UiEvent-IsQuiet (timed random id ids w e) off = timer-IsQuiet random w.viewer off
  UiEvent-IsQuiet (moved width height x y w) off = quiet w.viewer off
