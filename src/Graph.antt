-- ===== src/Graph.antt =====
-- src/teststandui.c: the state of the graphical client and its handlers. What the handlers ask of GTK and
-- of the main loop of GLib is kept as a list of calls, the latest first; the lists of GLib are a parameter.
-- The body of idle_handle_output, into which a merge has put the head of an older on_tick_timer, is read
-- without those lines.
pub mod Window
pub mod Drawing
pub mod Hover
use motor_stand.Prelude.{
  ℕ, ◌≡◌, Bool, true, false, not, ◌&&◌, ◌||◌, Option, none, some, List, [], ◌∷◌, ◌++◌, ◌%◌,
  if◌then◌else◌, ◌==◌, ltb, length,
}
use motor_stand.Prelude.Int.{pos}
use motor_stand.Prelude.Text.{codes}
use motor_stand.Double.{Double, ◌⊕◌, ◌⊗◌, ◌⊘◌}
use motor_stand.Double.Plots.{Plots}
use motor_stand.LoadCell.{OutputData}

abbrev pub data_points_to_keep : ℕ
data_points_to_keep = 500

pub record DataPoint (D : Type 0) : Type 0 where
  pub x_time : D
  pub y_value : D

-- The functions of GLib on a GList, with a node given by its position.
pub record Glib (A : Type 0) : Type 0 where
  pub g_list_append : List A → A → List A
  pub g_list_length : List A → ℕ
  pub g_list_delete_link : List A → ℕ → List A

-- What the documentation of GLib says of them.
pub record IsDocumented (A : Type 0) (g : Glib A) : Type 0 where
  pub append_eq : (l : List A) (x : A) → g.g_list_append l x ≡ l ++ x ∷ []
  pub length_eq : (l : List A) → g.g_list_length l ≡ length l
  pub delete_first : (x : A) (l : List A) → g.g_list_delete_link (x ∷ l) 0 ≡ l

-- The calls of GTK and GLib that change what is seen or what is run.
pub data Call (D : Type 0) : Type 0 where
  list_store_row : D → D → Call D  -- gtk_list_store_append, then gtk_list_store_set
  list_store_clear statusbar_pop queue_draw : Call D
  statusbar_push : List ℕ → Call D
  set_label : Bool → List ℕ → Call D  -- gtk_button_set_label; false for a null pointer
  timeout_add source_remove : ℕ → Call D  -- with the identifier of the source

-- `GraphData`, with `traces[0].data` as `points`; of the pointers to widgets, whether they are set.
pub record GraphData (D : Type 0) : Type 0 where
  pub points : List (DataPoint D)
  pub max_x : D
  pub max_y : D
  pub is_recording : Bool
  pub has_data_input : Bool
  pub test_mode : Bool
  pub test_timer_id : ℕ
  pub drawing_area : Bool
  pub list_store : Bool

-- The client: the static variables, the calls so far, the idle sources that wait.
pub record Viewer (D : Type 0) : Type 0 where
  pub graph : GraphData D
  pub current_time : D
  pub calls : List (Call D)
  pub pending : List (OutputData D)

module _ {D : Type 0} where
  abbrev pub emit : Call D → Viewer D → Viewer D
  emit call c = record c { calls = call ∷ c.calls }

  abbrev pub update_table : D → D → Viewer D → Viewer D
  update_table time primary_val c = emit (list_store_row time primary_val) c

  -- `if (!gd || !gd->drawing_area || !gd->list_store)`, negated.
  abbrev pub is_built : Viewer D → Bool
  is_built c = c.graph.drawing_area && c.graph.list_store

  -- `on_start_stop_clicked`; `button` is false for a null pointer.
  pub on_start_stop_clicked : Bool → Viewer D → Viewer D
  on_start_stop_clicked button c =
      if not c.graph.has_data_input && not c.graph.test_mode
      then emit (statusbar_push (codes "No data source available. Click Test to simulate data.")) c
      else if c.graph.is_recording
      then emit (statusbar_push (codes "Recording Paused. Click Reset to clear data.")) (
          emit (set_label button (codes "Start Recording"))
            (record c { graph = record c.graph { is_recording = false } }))
      else emit (statusbar_push (codes "Recording data...")) (
          emit (set_label button (codes "Stop Recording"))
            (record c { graph = record c.graph { is_recording = true } }))

  -- `on_test_toggled`, with the state of the button and the identifier that g_timeout_add_full returns.
  pub on_test_toggled : Bool → ℕ → Viewer D → Viewer D
  on_test_toggled true id c =
      emit (statusbar_push (codes "Test mode: generating simulated data.")) (
        emit (timeout_add id) (record c {
          graph = record c.graph { test_mode = true; has_data_input = true; test_timer_id = id };
        }))
  on_test_toggled false id c =
      let g = record c.graph { test_mode = false; has_data_input = false } in
      emit (statusbar_push (codes "Test mode stopped.")) (
        if g.test_timer_id == 0
        then record c { graph = g }
        else emit (source_remove g.test_timer_id)
            (record c { graph = record g { test_timer_id = 0 } }))

  -- `on_tick_timer`, in the thread of the network client; `memory` is whether malloc succeeds. The last
  -- call is g_idle_add.
  pub on_tick_timer : Option (OutputData D) → Bool → Viewer D → Viewer D
  on_tick_timer none memory c = c
  on_tick_timer (some output) memory c =
      if is_built c && memory then record c { pending = c.pending ++ output ∷ [] } else c

module _ {D : Type 0} ⦃d : Double D⦄ where
  -- The loop for the peak.
  pub peak : D → List (DataPoint D) → D
  peak maxy [] = maxy
  peak maxy (p ∷ ps) = let rest = peak (if d.gt p.y_value maxy then p.y_value else maxy) ps in rest

  -- `if (maxy <= 0.0) maxy = 1.0;`
  pub peak_or_one : D → D
  peak_or_one maxy = if d.gt d.nought maxy || d.eq maxy d.nought then d.unit else maxy

-- The list with the new element, cut to DATA_POINTS_TO_KEEP.
pub keep_point : {A : Type 0} → Glib A → A → List A → List A
keep_point g p points =
    let appended = g.g_list_append points p in
    if ltb data_points_to_keep (g.g_list_length appended)
    then g.g_list_delete_link appended 0
    else appended

module _ {D : Type 0} ⦃d : Double D⦄ (q : Plots D) (g : Glib (DataPoint D)) where
  pub log_new_data : D → Viewer D → Viewer D
  log_new_data primary_val c =
      let now = c.current_time ⊕ q.decimal 1 1 in
      let points = keep_point g (record { x_time = now; y_value = primary_val }) c.graph.points in
      let maxy = peak_or_one (peak d.nought points) in
      emit queue_draw (
        update_table now primary_val (record c {
          current_time = now;
          graph = record c.graph { points = points; max_x = now; max_y = maxy ⊗ q.decimal 11 1 };
        }))

  -- `idle_handle_output`
  pub idle_handle_output : OutputData D → Viewer D → Viewer D
  idle_handle_output output c =
      let c = record c { graph = record c.graph { has_data_input = true } } in
      if c.graph.is_recording then log_new_data output.value_tare c else c

  -- `test_timer_cb`, with what rand returns.
  pub test_timer_cb : ℕ → Viewer D → Viewer D
  test_timer_cb random c =
      if is_built c && c.graph.is_recording
      then log_new_data (d.of_long (pos (random % 1000)) ⊘ q.decimal 100 1) c
      else c

module _ {D : Type 0} ⦃d : Double D⦄ (q : Plots D) where
  pub reset_graph_data : Viewer D → Viewer D
  reset_graph_data c =
      let cleared = if c.graph.list_store then emit list_store_clear c else c in
      emit queue_draw (
        emit (statusbar_push (codes "Graph data cleared. Ready to record.")) (record cleared {
          current_time = d.nought;
          graph = record c.graph { points = []; max_x = d.nought; max_y = q.decimal 1500 1 };
        }))

  pub on_reset_clicked : Viewer D → Viewer D
  on_reset_clicked c =
      reset_graph_data (if c.graph.is_recording then on_start_stop_clicked false c else c)
