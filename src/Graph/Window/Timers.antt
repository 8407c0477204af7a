-- ===== src/Graph/Window/Timers.antt =====
-- The timer of the test mode of src/teststandui.c.
use motor_stand.Prelude.{
  ℕ, ◌≡◌, ◌≢◌, refl, ap, ◌∙◌, true, false, not, ◌&&◌, Bool, Option, none, some, List, [], ◌∷◌,
  if◌then◌else◌, ==_of_ne, ==_refl,
}
use motor_stand.Double.{Double}
use motor_stand.Double.Plots.{Plots}
use motor_stand.LoadCell.{OutputData}
use motor_stand.Graph.{
  DataPoint, Glib, Viewer, on_start_stop_clicked, on_test_toggled, on_tick_timer,
  idle_handle_output, test_timer_cb, on_reset_clicked, log_new_data, reset_graph_data, is_built,
}
use motor_stand.Graph.Hover.{on_motion_event}
use motor_stand.Graph.Window.{
  Window, activated, timers, UiEvent, clicked, reset_clicked, toggled, ticked, idle, timed, moved,
  Reached, start, then_,
}

abbrev Mode : Type 0
Mode = List ℕ × Bool × ℕ

-- In test mode the timer that is noted runs, and outside of it none.
abbrev pub IsTimed : Bool → List ℕ → Bool → ℕ → Type 0
IsTimed true running test_mode id = (running ≡ id ∷ []) × (test_mode ≡ true) × (id ≢ 0)
IsTimed false running test_mode id = (running ≡ []) × (test_mode ≡ false) × (id ≡ 0)

abbrev IsTimedMode : Bool → Mode → Type 0
IsTimedMode active (running, test_mode, id) = IsTimed active running test_mode id

move : (active : Bool) {m n : Mode} → m ≡ n → IsTimedMode active n → IsTimedMode active m
move active e h = rw e h

module _ {D : Type 0} where
  abbrev mode : Viewer D → Mode
  mode v = (timers v.calls, v.graph.test_mode, v.graph.test_timer_id)

  mode-if :
      (b : Bool) (v x y : Viewer D)
      → mode x ≡ mode v
      → mode y ≡ mode v
      → mode (if b then x else y) ≡ mode v
  mode-if true v x y e f = e
  mode-if false v x y e f = f

  mode-start_stop : (button : Bool) (v : Viewer D) → mode (on_start_stop_clicked button v) ≡ mode v
  unfolding on_start_stop_clicked
  mode-start_stop button v =
      mode-if (not v.graph.has_data_input && not v.graph.test_mode) v _ _ refl
        (mode-if v.graph.is_recording v _ _ refl refl)

  mode-ticked :
      (data_ : Option (OutputData D)) (memory : Bool) (v : Viewer D)
      → mode (on_tick_timer data_ memory v) ≡ mode v
  unfolding on_tick_timer
  mode-ticked none memory v = refl
  mode-ticked (some output) memory v = mode-if (is_built v && memory) v _ _ refl refl

  toggled-IsTimed :
      (active : Bool) (id : ℕ) (v : Viewer D)
      → id ≢ 0
      → IsTimedMode active (mode v)
      → IsTimedMode (not active) (mode (on_test_toggled (not active) id v))
  unfolding on_test_toggled
  toggled-IsTimed true id v fresh (running, on, nonzero) =
      rw (==_of_ne v.graph.test_timer_id 0 nonzero, running, ==_refl v.graph.test_timer_id)
        (refl, refl, refl)
  toggled-IsTimed false id v fresh (running, off, unset) =
      (ap (λ ids. id ∷ ids) running, refl, fresh)

module _ {D : Type 0} ⦃d : Double D⦄ (q : Plots D) where
  mode-reset : (v : Viewer D) → mode (reset_graph_data q v) ≡ mode v
  unfolding reset_graph_data
  mode-reset v =
      ap (λ ids. (ids, v.graph.test_mode, v.graph.test_timer_id))
        (ap (λ t. t.0) (mode-if v.graph.list_store v _ _ refl refl))

  mode-reset_clicked : (v : Viewer D) → mode (on_reset_clicked q v) ≡ mode v
  unfolding on_reset_clicked
  mode-reset_clicked v =
      mode-reset _ ∙ mode-if v.graph.is_recording v _ _ (mode-start_stop false v) refl

  module _ (g : Glib (DataPoint D)) where
    mode-log : (val : D) (v : Viewer D) → mode (log_new_data q g val v) ≡ mode v
    unfolding log_new_data
    mode-log val v = refl

    mode-idle :
        (output : OutputData D) (v : Viewer D) → mode (idle_handle_output q g output v) ≡ mode v
    unfolding idle_handle_output
    mode-idle output v = mode-if v.graph.is_recording v _ _ (mode-log output.value_tare _) refl

    mode-timer : (random : ℕ) (v : Viewer D) → mode (test_timer_cb q g random v) ≡ mode v
    unfolding test_timer_cb
    mode-timer random v = mode-if (is_built v && v.graph.is_recording) v _ _ (mode-log _ v) refl

    IsTimed-UiEvent :
        {w u : Window D}
        → UiEvent D q g w u
        → IsTimedMode w.active (mode w.viewer)
        → IsTimedMode u.active (mode u.viewer)
    unfolding on_motion_event
    IsTimed-UiEvent (clicked w) h = move w.active (mode-start_stop true w.viewer) h
    IsTimed-UiEvent (reset_clicked w) h = move w.active (mode-reset_clicked w.viewer) h
    IsTimed-UiEvent (toggled id w fresh) h = toggled-IsTimed w.active id w.viewer fresh h
    IsTimed-UiEvent (ticked data_ memory w) h = move w.active (mode-ticked data_ memory w.viewer) h
    IsTimed-UiEvent (idle output rest w e) h =
        move w.active (mode-idle output (record w.viewer { pending = rest })) h
    IsTimed-UiEvent (timed random id ids w e) h = move w.active (mode-timer random w.viewer) h
    IsTimed-UiEvent (moved width height x y w) h = h

    -- After any events exactly one timer runs, the one that is noted, if the check button is active, and
    -- none if it is not; test_mode is the state of the button.
    pub Reached-IsTimed :
        {w : Window D}
        → Reached D q g w
        → let v = w.viewer in
          IsTimed w.active (timers v.calls) v.graph.test_mode v.graph.test_timer_id
    unfolding activated
    Reached-IsTimed start = (refl, refl, refl)
    Reached-IsTimed (then_ r s) = IsTimed-UiEvent s (Reached-IsTimed r)
