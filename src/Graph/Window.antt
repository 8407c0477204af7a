-- ===== src/Graph/Window.antt =====
-- The events of src/teststandui.c as steps, from the state that activate leaves, and what its calls have
-- put on the screen.
pub mod Recent
pub mod Table
pub mod Timers
pub mod Peak
pub mod Recording
pub mod Label
mod Tests
use motor_stand.Prelude.{
  ℕ, ◌≡◌, ◌≢◌, Bool, true, false, not, Option, none, some, List, [], ◌∷◌, ◌++◌, if◌then◌else◌, ◌==◌,
}
use motor_stand.Prelude.Text.{codes}
use motor_stand.Double.{Double}
use motor_stand.Double.Plots.{Plots}
use motor_stand.LoadCell.{OutputData}
use motor_stand.Graph.{
  DataPoint, Glib, GraphData, Viewer, Call, list_store_row, list_store_clear, set_label,
  timeout_add, source_remove, on_start_stop_clicked, on_test_toggled, on_tick_timer,
  idle_handle_output, test_timer_cb, on_reset_clicked,
}
use motor_stand.Graph.Hover.{on_motion_event}

-- The client with the state of its check button.
pub record Window (D : Type 0) : Type 0 where
  pub viewer : Viewer D
  pub active : Bool

abbrev pub without : ℕ → List ℕ → List ℕ
without id [] = []
without id (i ∷ ids) = let rest = without id ids in if i == id then rest else i ∷ rest

module _ {D : Type 0} where
  -- The rows of the table.
  abbrev pub table : List (Call D) → List (DataPoint D)
  table [] = []
  table (list_store_row time val ∷ cs) = table cs ++ record { x_time = time; y_value = val } ∷ []
  table (list_store_clear ∷ cs) = []
  table (_ ∷ cs) = table cs

  -- The timers that run, the latest first.
  abbrev pub timers : List (Call D) → List ℕ
  timers [] = []
  timers (timeout_add id ∷ cs) = id ∷ timers cs
  timers (source_remove id ∷ cs) = without id (timers cs)
  timers (_ ∷ cs) = timers cs

  -- The label of the start button; activate makes it with the text "Stop Recording".
  abbrev pub label_shown : List (Call D) → List ℕ
  label_shown [] = codes "Stop Recording"
  label_shown (set_label true text ∷ cs) = text
  label_shown (_ ∷ cs) = label_shown cs

-- The state that activate leaves: static variables are zero but for the pointers to the widgets.
pub activated : {D : Type 0} ⦃d : Double D⦄ → Window D
activated ⦃d = d⦄ = record {
  viewer = record {
    graph = record {
      points = [];
      max_x = d.nought;
      max_y = d.nought;
      is_recording = false;
      has_data_input = false;
      test_mode = false;
      test_timer_id = 0;
      drawing_area = true;
      list_store = true;
    };
    current_time = d.nought;
    calls = [];
    pending = [];
  };
  active = false;
}

-- The steps: a click on a button, the check button with the identifier of a new timer, a packet in the
-- thread of the network client, the first idle source, a timer that runs, the mouse.
pub data UiEvent (D : Type 0) ⦃d : Double D⦄ (q : Plots D) (g : Glib (DataPoint D))
    : Window D → Window D → Type 0 where
  clicked :
      (w : Window D) → UiEvent D q g w (record w { viewer = on_start_stop_clicked true w.viewer })
  reset_clicked :
      (w : Window D) → UiEvent D q g w (record w { viewer = on_reset_clicked q w.viewer })
  toggled :
      (id : ℕ) (w : Window D)
      → id ≢ 0
      → UiEvent D q g w
          (record { viewer = on_test_toggled (not w.active) id w.viewer; active = not w.active })
  ticked :
      (data_ : Option (OutputData D)) (memory : Bool) (w : Window D)
      → UiEvent D q g w (record w { viewer = on_tick_timer data_ memory w.viewer })
  idle :
      (output : OutputData D) (rest : List (OutputData D)) (w : Window D)
      → w.viewer.pending ≡ output ∷ rest
      → UiEvent D q g w
          (record w { viewer = idle_handle_output q g output (record w.viewer { pending = rest }) })
  timed :
      (random id : ℕ) (ids : List ℕ) (w : Window D)
      → timers w.viewer.calls ≡ id ∷ ids
      → UiEvent D q g w (record w { viewer = test_timer_cb q g random w.viewer })
  moved :
      (width height : ℕ) (mouse_x mouse_y : D) (w : Window D)
      → UiEvent D q g w
          (record w { viewer = on_motion_event q width height mouse_x mouse_y w.viewer })

-- The states that events lead to.
pub data Reached (D : Type 0) ⦃d : Double D⦄ (q : Plots D) (g : Glib (DataPoint D))
    : Window D → Type 0 where
  start : Reached D q g activated
  then_ : {w u : Window D} → Reached D q g w → UiEvent D q g w u → Reached D q g u
