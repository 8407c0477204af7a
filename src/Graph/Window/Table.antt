-- ===== src/Graph/Window/Table.antt =====
-- The points of the graph and the rows of the table of src/teststandui.c.
use motor_stand.Prelude.{
  ℕ, zero, suc, ◌≡◌, refl, sym, ap, ap₂, ◌∙◌, true, false, not, Option, none, some, List, [], ◌∷◌,
  ◌++◌, map, map-append, ◌&&◌, Bool, length, length-append, arith, if◌then◌else◌, ◌==◌,
}
use motor_stand.Double.{Double, ◌⊕◌}
use motor_stand.Double.Plots.{Plots}
use motor_stand.LoadCell.{OutputData}
use motor_stand.Graph.{
  DataPoint, Glib, IsDocumented, Viewer, data_points_to_keep, keep_point, on_start_stop_clicked,
  on_test_toggled, on_tick_timer, idle_handle_output, test_timer_cb, on_reset_clicked, log_new_data,
  reset_graph_data, is_built,
}
use motor_stand.Graph.Hover.{on_motion_event}
use motor_stand.Graph.Window.Recent.{last, keep_point-last}
use motor_stand.Graph.Window.{
  Window, table, activated, UiEvent, clicked, reset_clicked, toggled, ticked, idle, timed, moved,
  Reached, start, then_,
}

and_right : (a b : Bool) → (a && b) ≡ true → b ≡ true
and_right a b h = ground arith

and_true : (a b : Bool) → (a && b) ≡ true → (a && true) ≡ true
and_true a b h = ground arith

abbrev pub x_times : {D : Type 0} → List (DataPoint D) → List D
x_times rows = map (λ p. p.x_time) rows

module _ {D : Type 0} ⦃d : Double D⦄ (q : Plots D) where
  -- The clock after `n` samples.
  abbrev pub clock : ℕ → D
  clock zero = d.nought
  clock (suc n) = clock n ⊕ q.decimal 1 1

  abbrev pub clocks : ℕ → List D
  clocks zero = []
  clocks (suc n) = clocks n ++ clock (suc n) ∷ []

  -- What the graph and the table show.
  record Shown : Type 0 where
    points : List (DataPoint D)
    rows : List (DataPoint D)
    now : D
    max_x : D
    built : Bool

  abbrev shown : Viewer D → Shown
  shown v = record {
    points = v.graph.points;
    rows = table v.calls;
    now = v.current_time;
    max_x = v.graph.max_x;
    built = is_built v;
  }

  -- The graph keeps up with the table.
  record IsKept (s : Shown) : Type 0 where
    points_eq : s.points ≡ last data_points_to_keep s.rows
    times_eq : x_times s.rows ≡ clocks (length s.rows)
    clock_eq : s.now ≡ clock (length s.rows)
    max_eq : s.max_x ≡ s.now
    built_eq : s.built ≡ true

  shown-if :
      (b : Bool) (v x y : Viewer D)
      → shown x ≡ shown v
      → shown y ≡ shown v
      → shown (if b then x else y) ≡ shown v
  shown-if true v x y e f = e
  shown-if false v x y e f = f

  shown-start_stop :
      (button : Bool) (v : Viewer D) → shown (on_start_stop_clicked button v) ≡ shown v
  unfolding on_start_stop_clicked
  shown-start_stop button v =
      shown-if (not v.graph.has_data_input && not v.graph.test_mode) v _ _ refl
        (shown-if v.graph.is_recording v _ _ refl refl)

  shown-toggled :
      (active : Bool) (id : ℕ) (v : Viewer D) → shown (on_test_toggled active id v) ≡ shown v
  unfolding on_test_toggled
  shown-toggled true id v = refl
  shown-toggled false id v = shown-if (v.graph.test_timer_id == 0) v _ _ refl refl

  shown-ticked :
      (data_ : Option (OutputData D)) (memory : Bool) (v : Viewer D)
      → shown (on_tick_timer data_ memory v) ≡ shown v
  unfolding on_tick_timer
  shown-ticked none memory v = refl
  shown-ticked (some output) memory v = shown-if (is_built v && memory) v _ _ refl refl

  IsKept-reset : (v : Viewer D) → IsKept (shown v) → IsKept (shown (reset_graph_data q v))
  unfolding reset_graph_data
  IsKept-reset v k =
      let there : v.graph.list_store ≡ true = and_right v.graph.drawing_area _ k.built_eq in
      rw there (record {
        points_eq = refl;
        times_eq = refl;
        clock_eq = refl;
        max_eq = refl;
        built_eq = and_true v.graph.drawing_area _ k.built_eq;
      })

  module _ (g : Glib (DataPoint D)) (doc : IsDocumented (DataPoint D) g) where
    IsKept-log :
        (val : D) (v : Viewer D) → IsKept (shown v) → IsKept (shown (log_new_data q g val v))
    unfolding log_new_data
    IsKept-log val v k =
        let rows = table v.calls in
        let now = v.current_time ⊕ q.decimal 1 1 in
        let p : DataPoint D = record { x_time = now; y_value = val } in
        let grown : length (rows ++ p ∷ []) ≡ suc (length rows) =
          omega (arith, length-append rows (p ∷ [])) in
        let ticked : now ≡ clock (suc (length rows)) = ap (λ t. t ⊕ q.decimal 1 1) k.clock_eq in
        record {
          points_eq = ap (keep_point g _) k.points_eq ∙ keep_point-last g doc _ (table v.calls);
          times_eq =
              map-append (λ p. p.x_time) rows (p ∷ [])
              ∙ ap₂ (λ ts t. ts ++ t ∷ []) k.times_eq ticked
              ∙ ap clocks (sym grown);
          clock_eq = ticked ∙ ap clock (sym grown);
          max_eq = refl;
          built_eq = k.built_eq;
        }

    IsKept-if :
        (b : Bool) (x y : Viewer D)
        → IsKept (shown x)
        → IsKept (shown y)
        → IsKept (shown (if b then x else y))
    IsKept-if true x y h k = h
    IsKept-if false x y h k = k

    IsKept-UiEvent :
        {w u : Window D} → UiEvent D q g w u → IsKept (shown w.viewer) → IsKept (shown u.viewer)
    unfolding on_reset_clicked idle_handle_output test_timer_cb on_motion_event
    IsKept-UiEvent (clicked w) k = rw (shown-start_stop true w.viewer) k
    IsKept-UiEvent (reset_clicked w) k =
        IsKept-reset _
          (IsKept-if w.viewer.graph.is_recording _ _ (rw (shown-start_stop false w.viewer) k) k)
    IsKept-UiEvent (toggled id w fresh) k = rw (shown-toggled (not w.active) id w.viewer) k
    IsKept-UiEvent (ticked data_ memory w) k = rw (shown-ticked data_ memory w.viewer) k
    IsKept-UiEvent (idle output rest w e) k =
        IsKept-if w.viewer.graph.is_recording _ _ (IsKept-log _ _ k) k
    IsKept-UiEvent (timed random id ids w e) k = IsKept-if _ _ _ (IsKept-log _ _ k) k
    IsKept-UiEvent (moved width height x y w) k = k

    Reached-IsKept : {w : Window D} → Reached D q g w → IsKept (shown w.viewer)
    unfolding activated
    Reached-IsKept start = record {
      points_eq = refl;
      times_eq = refl;
      clock_eq = refl;
      max_eq = refl;
      built_eq = refl;
    }
    Reached-IsKept (then_ r s) = IsKept-UiEvent s (Reached-IsKept r)

    -- After any events, the points of the graph are the last 500 rows of the table, in order; the times in
    -- the table are the multiples of a tenth of a second from the first row on, as repeated addition gives
    -- them; and max_x is the time of the last row, or zero without rows.
    pub Reached-table :
        {w : Window D}
        → Reached D q g w
        → let rows = table w.viewer.calls in
          (w.viewer.graph.points ≡ last data_points_to_keep rows)
          × (x_times rows ≡ clocks (length rows))
          × (w.viewer.graph.max_x ≡ clock (length rows))
    Reached-table r = let k = Reached-IsKept r in (k.points_eq, k.times_eq, k.max_eq ∙ k.clock_eq)
