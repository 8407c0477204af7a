-- ===== src/Graph/Window/Tests.antt =====
-- Runs of the graphical client on whole numbers and on numbers modulo two.
use motor_stand.Prelude.{
  ℕ, zero, suc, ◌≡◌, refl, true, false, not, ◌&&◌, ◌||◌, Bool, List, [], ◌∷◌, ◌++◌, length, arith,
}
use motor_stand.Prelude.Int.{ℤ, pos, negsuc, eq_ℤ_iff}
use motor_stand.Prelude.Text.{print_long}
use motor_stand.Integers.{whole_numbers, times}
use motor_stand.Parity.{parity, parity-IsExact, odd}
use motor_stand.Double.Plots.{Plots}
use motor_stand.Double.Order.{IsOrder}
use motor_stand.Graph.{
  Viewer, Glib, IsDocumented, GraphData, data_points_to_keep, on_reset_clicked,
  on_start_stop_clicked, on_test_toggled, test_timer_cb, log_new_data,
}
use motor_stand.Graph.Drawing.{screen_y, tick_value, grid_y}
use motor_stand.Graph.Drawing.Axes.{screen_y-tick_value}
use motor_stand.Graph.Hover.{hover_text}
use motor_stand.Graph.Hover.First.{ShowsFirst, hover_text-first}
use motor_stand.Graph.Window.{
  Window, UiEvent, Reached, start, then_, clicked, toggled, timed, activated, table, timers,
  label_shown,
}
use motor_stand.Graph.Window.Recent.{last}
use motor_stand.Graph.Window.Table.{x_times, clocks, clock, Reached-table}
use motor_stand.Graph.Window.Timers.{IsTimed, Reached-IsTimed}
use motor_stand.Graph.Window.Peak.{IsScaled, Reached-max_y}
use motor_stand.Graph.Window.Label.{IsLabelled, Reached-label}
use motor_stand.Graph.Window.Recording.{has_source, IsQuiet, UiEvent-IsQuiet}

abbrev whole_plots : Plots ℤ
whole_plots = record {
  decimal = λ n k. pos n;
  sqrt = λ a. a;
  pow = λ a n. times a a;
  show_fixed = λ k. print_long;
}

abbrev odd_plots : Plots Bool
odd_plots = record {
  decimal = λ n k. odd (pos n);
  sqrt = λ a. a;
  pow = λ a n. a;
  show_fixed = λ k a. [];
}

abbrev remove {ℓ} : {A : Type ℓ} → List A → ℕ → List A
remove [] i = []
remove (x ∷ xs) zero = xs
remove (x ∷ xs) (suc i) = x ∷ remove xs i

abbrev lists : {A : Type 0} → Glib A
lists = record {
  g_list_append = λ l x. l ++ x ∷ [];
  g_list_length = length;
  g_list_delete_link = remove;
}

lists-IsDocumented : {A : Type 0} → IsDocumented A lists
lists-IsDocumented = record {
  append_eq = λ l x. refl;
  length_eq = λ l. refl;
  delete_first = λ x l. refl;
}

below_one :
    (m : ℤ)
    → (whole_numbers.gt (pos 0) m || whole_numbers.eq m (pos 0)) ≡ true
    → whole_numbers.gt m (pos 1) ≡ false
below_one (pos n) h = ground arith
below_one (negsuc n) h = ground arith

whole-IsOrder : IsOrder ℤ
whole-IsOrder = record {
  le_trans = λ a b c h e f. ground arith;
  asym = λ a b h. ground arith;
  gt_ordered = λ a b h. (eq_ℤ_iff a a).1 refl;
  nought_ordered = refl;
  irrefl = λ a. ground arith;
  below_unit = below_one;
}

-- The test mode is switched on, the recording started, and two values are simulated.
abbrev simulated : (w : Window ℤ) × Reached ℤ whole_plots lists w
unfolding activated on_test_toggled on_start_stop_clicked test_timer_cb log_new_data
simulated = (
  _,
  then_
      (then_ (then_ (then_ start (toggled 9 _ (λ e. omega arith))) (clicked _))
        (timed 1234 9 [] _ refl))
      (timed 77 9 [] _ refl),
)

abbrev ran : Viewer ℤ
ran = simulated.0.viewer

-- The run has two rows, so that the examples are about a graph with points.
simulated_rows : length (table ran.calls) ≡ 2
unfolding activated on_test_toggled on_start_stop_clicked test_timer_cb log_new_data
simulated_rows = refl

Reached-table_example :
    (ran.graph.points ≡ last data_points_to_keep (table ran.calls))
    × (x_times (table ran.calls) ≡ clocks whole_plots (length (table ran.calls)))
    × (ran.graph.max_x ≡ clock whole_plots (length (table ran.calls)))
Reached-table_example = Reached-table whole_plots lists lists-IsDocumented simulated.1

Reached-max_y_example : IsScaled whole_plots ran.graph.points ran.graph.max_y
Reached-max_y_example = Reached-max_y whole-IsOrder whole_plots lists simulated.1

Reached-IsTimed_example :
    IsTimed simulated.0.active (timers ran.calls) ran.graph.test_mode ran.graph.test_timer_id
Reached-IsTimed_example = Reached-IsTimed whole_plots lists simulated.1

Reached-label_example :
    IsLabelled ran
    × ((on_reset_clicked whole_plots ran).graph.is_recording
        ≡ (ran.graph.is_recording && not (has_source ran)))
    × (label_shown (on_reset_clicked whole_plots ran).calls ≡ label_shown ran.calls)
Reached-label_example = Reached-label whole_plots lists simulated.1

abbrev enabled : (w : Window ℤ) × UiEvent ℤ whole_plots lists activated w
enabled = (_, toggled 9 activated (λ e. omega arith))

UiEvent-IsQuiet_example : IsQuiet activated.viewer enabled.0.viewer
unfolding activated
UiEvent-IsQuiet_example = UiEvent-IsQuiet whole_plots lists enabled.1 refl

abbrev odd_graph : GraphData Bool
odd_graph = record {
  points = [];
  max_x = true;
  max_y = true;
  is_recording = false;
  has_data_input = true;
  test_mode = true;
  test_timer_id = 9;
  drawing_area = true;
  list_store = true;
}

screen_y-tick_value_example :
    screen_y odd_plots 400 301 odd_graph (tick_value odd_plots 400 301 odd_graph 3)
    ≡ grid_y odd_plots 400 301 odd_graph 3
screen_y-tick_value_example =
    screen_y-tick_value parity-IsExact odd_plots 400 301 odd_graph 3 refl refl

hover_text-first_example :
    ShowsFirst whole_plots 400 300 ran.graph
      (pos 60)
      (pos 100)
      ran.graph.points
      (hover_text whole_plots 400 300 ran.graph (pos 60) (pos 100) ran.graph.points)
hover_text-first_example =
    hover_text-first whole_plots 400 300 ran.graph (pos 60) (pos 100) ran.graph.points
