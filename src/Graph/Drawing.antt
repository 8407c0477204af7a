-- ===== src/Graph/Drawing.antt =====
-- on_draw_event of src/teststandui.c: the calls of cairo in order, from the size of the widget and the
-- state of the graph. Sizes are those that GTK allocates and so natural numbers; what is left of them
-- between the margins may be negative.
pub mod Axes
pub mod Lines
use motor_stand.Prelude.{
  ℕ, zero, suc, ◌+◌, ◌≡◌, Bool, true, false, Option, none, some, List, [], ◌∷◌, ◌++◌, if◌then◌else◌,
  ltb, length, take,
}
use motor_stand.Prelude.Int.{ℤ, pos}
use motor_stand.Prelude.Text.{codes}
use motor_stand.Integers.{sub_ℕ, plus, quotient}
use motor_stand.Double.{Double, ◌⊕◌, ◌⊖◌, ◌⊗◌, ◌⊘◌}
use motor_stand.Double.Plots.{Plots}
use motor_stand.Graph.{DataPoint, GraphData}

-- The calls of cairo.
pub data Cairo (D : Type 0) : Type 0 where
  set_source_rgb : D → D → D → Cairo D
  set_source_rgba : D → D → D → D → Cairo D
  paint stroke fill save restore : Cairo D
  set_line_width set_font_size rotate : D → Cairo D
  set_dash : List D → Cairo D
  move_to line_to translate : D → D → Cairo D
  arc : D → D → D → D → D → Cairo D
  show_text : List ℕ → Cairo D

abbrev pub margin_left : ℕ
margin_left = 60

abbrev pub margin_right : ℕ
margin_right = 20

abbrev pub margin_top : ℕ
margin_top = 20

abbrev pub margin_bottom : ℕ
margin_bottom = 40

abbrev pub y_ticks : ℕ
y_ticks = 5

abbrev pub x_ticks : ℕ
x_ticks = 4

abbrev pub graph_width : ℕ → ℤ
graph_width width = sub_ℕ width (margin_left + margin_right)

abbrev pub graph_height : ℕ → ℤ
graph_height height = sub_ℕ height (margin_top + margin_bottom)

-- margin_top + graph_height, where the time axis is.
abbrev pub bottom : ℕ → ℤ
bottom height = plus (pos margin_top) (graph_height height)

-- margin_left + graph_width, where the time axis ends.
abbrev pub right : ℕ → ℤ
right width = plus (pos margin_left) (graph_width width)

-- The rounds i, i + 1, ... of a loop that draws.
unfoldable pub each {ℓ} : {A : Type ℓ} → ℕ → ℕ → (ℕ → List A) → List A
each zero i body = []
each (suc n) i body = body i ++ each n (i + 1) body

abbrev pub int : {D : Type 0} ⦃d : Double D⦄ → ℕ → D
int ⦃d = d⦄ n = d.of_long (pos n)

module _ {D : Type 0} ⦃d : Double D⦄ (q : Plots D) where
  -- snprintf with `%.1f` to a label of 32 characters.
  abbrev pub label : D → List ℕ
  label value = take 31 (q.show_fixed 1 value)

  module _ (width height : ℕ) (gd : GraphData D) where
    pub scale_x : D
    scale_x = if d.gt gd.max_x d.nought then d.of_long (graph_width width) ⊘ gd.max_x else d.nought

    pub scale_y : D
    scale_y =
        if d.gt gd.max_y d.nought then d.of_long (graph_height height) ⊘ gd.max_y else d.nought

    pub screen_x : D → D
    screen_x time = int margin_left ⊕ time ⊗ scale_x

    pub screen_y : D → D
    screen_y value = d.of_long (bottom height) ⊖ value ⊗ scale_y

    -- The height of a horizontal grid line, and of the tick beside it with its value.
    pub grid_y : ℕ → D
    grid_y i = d.of_long (bottom height) ⊖ (d.of_long (graph_height height) ⊗ int i) ⊘ int y_ticks

    pub tick_value : ℕ → D
    tick_value i = (gd.max_y ⊗ int i) ⊘ int y_ticks

    -- The place of a vertical grid line, and of the tick below it with its time.
    pub grid_x : ℕ → D
    grid_x i = int margin_left ⊕ (d.of_long (graph_width width) ⊗ int i) ⊘ int x_ticks

    pub fraction : ℕ → D
    fraction i = int i ⊘ q.decimal 40 1

    pub tick_x : ℕ → D
    tick_x i = int margin_left ⊕ fraction i ⊗ d.of_long (graph_width width)

    abbrev pub segment : D → D → D → D → List (Cairo D)
    segment x y x' y' = move_to x y ∷ line_to x' y' ∷ stroke ∷ []

    pub horizontal_grid : ℕ → List (Cairo D)
    horizontal_grid i = segment (int margin_left) (grid_y i) (d.of_long (right width)) (grid_y i)

    pub vertical_grid : ℕ → List (Cairo D)
    vertical_grid i = segment (grid_x i) (int margin_top) (grid_x i) (d.of_long (bottom height))

    -- `margin_left - 5`, `margin_left - 40`
    pub y_tick : ℕ → List (Cairo D)
    y_tick i =
        let y = screen_y (tick_value i) in
        segment (int 55) y (int margin_left) y
        ++ move_to (int 20) (y ⊕ int 4) ∷ show_text (label (tick_value i)) ∷ []

    pub time_tick : ℕ → List (Cairo D)
    time_tick i =
        let x = tick_x i in
        segment x (d.of_long (bottom height)) x (d.of_long (plus (bottom height) (pos 6)))
        ++ move_to (x ⊖ int 10) (d.of_long (plus (bottom height) (pos 20)))
          ∷ show_text (label (gd.max_x ⊗ fraction i))
          ∷ []

    -- The solid line at zero.
    pub zero_line : List (Cairo D)
    zero_line =
        let y = d.of_long (bottom height) ⊖ d.nought ⊗ scale_y in
        if d.gt gd.max_y d.nought
        then set_source_rgb (q.decimal 3 1) (q.decimal 3 1) (q.decimal 3 1)
          ∷ set_line_width (q.decimal 20 1)
          ∷ segment (int margin_left) y (d.of_long (right width)) y
        else []

    -- The two axes and the label of the upright one; `pi` is M_PI.
    pub axes : D → List (Cairo D)
    axes pi =
        set_source_rgb d.nought d.nought d.nought
        ∷ set_line_width d.unit
        ∷ set_line_width d.unit
        ∷ move_to (int margin_left) (d.of_long (bottom height))
        ∷ line_to (d.of_long (right width)) (d.of_long (bottom height))
        ∷ move_to (int margin_left) (int margin_top)
        ∷ line_to (int margin_left) (d.of_long (bottom height))
        ∷ stroke
        ∷ set_font_size (q.decimal 120 1)
        ∷ save
        ∷ translate (int 15)
            (d.of_long (plus (pos margin_top) (quotient (graph_height height) (pos 2))))
        ∷ rotate (d.neg pi ⊘ q.decimal 20 1)
        ∷ move_to (int 0) (int 0)
        ∷ show_text (codes "Value")
        ∷ restore
        ∷ []

    pub time_label : List (Cairo D)
    time_label =
        move_to
          (d.of_long
            (plus (plus (pos margin_left) (quotient (graph_width width) (pos 2))) (sub_ℕ 0 30)))
          (d.of_long (sub_ℕ height 5))
        ∷ show_text (codes "Time (s)")
        ∷ []

    -- The loop over the lines; `previous` is none as long as first_point is true.
    pub trace_lines : Option (D × D) → List (DataPoint D) → List (Cairo D)
    trace_lines previous [] = []
    trace_lines none (p ∷ ps) = trace_lines (some (screen_x p.x_time, screen_y p.y_value)) ps
    trace_lines (some (x, y)) (p ∷ ps) =
        move_to x y
        ∷ line_to (screen_x p.x_time) (screen_y p.y_value)
        ∷ set_line_width (int 2 ⊗ d.unit)
        ∷ stroke
        ∷ trace_lines (some (screen_x p.x_time, screen_y p.y_value)) ps

    -- The loop over the points.
    pub trace_points : D → List (DataPoint D) → List (Cairo D)
    trace_points pi [] = []
    trace_points pi (p ∷ ps) =
        arc (screen_x p.x_time) (screen_y p.y_value) (q.decimal 30 1) (int 0) (int 2 ⊗ pi)
        ∷ fill
        ∷ trace_points pi ps

    -- The trace, in the colour g_colors[0] that activate gives it.
    pub draw_trace : D → List (DataPoint D) → List (Cairo D)
    draw_trace pi points =
        if ltb 0 (length points)
        then set_source_rgba d.unit d.nought d.nought d.unit
          ∷ (trace_lines none points ++ trace_points pi points)
        else []

    pub on_draw_event : D → List (Cairo D)
    on_draw_event pi =
        let light = q.decimal 7 1 in
        (set_source_rgb d.unit d.unit d.unit
          ∷ paint
          ∷ set_source_rgb d.nought d.nought d.nought
          ∷ set_source_rgba light light light d.unit
          ∷ set_line_width (q.decimal 5 1)
          ∷ set_dash (q.decimal 20 1 ∷ q.decimal 20 1 ∷ [])
          ∷ [])
        ++ each (suc y_ticks) 0 horizontal_grid
        ++ each x_ticks 1 vertical_grid
        ++ (set_dash [] ∷ [])
        ++ zero_line
        ++ axes pi
        ++ each (suc y_ticks) 0 y_tick
        ++ time_label
        ++ each 5 0 time_tick
        ++ draw_trace pi gd.points
