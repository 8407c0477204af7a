-- ===== src/Graph/Hover.antt =====
-- on_motion_event of src/teststandui.c: what the status bar shows of the trace under the mouse. activate
-- makes the trace visible, and nothing hides it.
pub mod First
use motor_stand.Prelude.{ℕ, Bool, true, false, List, [], ◌∷◌, ◌++◌, if◌then◌else◌, take}
use motor_stand.Prelude.Text.{codes}
use motor_stand.Double.{Double, ◌⊕◌, ◌⊖◌}
use motor_stand.Double.Plots.{Plots}
use motor_stand.Graph.{DataPoint, GraphData, Viewer, Call, statusbar_pop, statusbar_push, emit}
use motor_stand.Graph.Drawing.{int, screen_x, screen_y}

-- The `status_text` before the search.
abbrev pub hint : List ℕ
hint = codes "Hover over data points to see values"

module _ {D : Type 0} ⦃d : Double D⦄ (q : Plots D) (width height : ℕ) (gd : GraphData D) where
  pub distance : D → D → DataPoint D → D
  distance mouse_x mouse_y p = q.sqrt (
      q.pow (mouse_x ⊖ screen_x q width height gd p.x_time) (int 2)
      ⊕ q.pow (mouse_y ⊖ screen_y q width height gd p.y_value) (int 2))

  -- The text about a point of the trace that activate names "Trace 1", in 256 characters.
  pub point_text : DataPoint D → List ℕ
  point_text p = take 255 (
      codes "Trace 1: Time="
      ++ q.show_fixed 1 p.x_time
      ++ codes "s, Value="
      ++ q.show_fixed 2 p.y_value)

  -- The loop over the points of the trace.
  pub hover_text : D → D → List (DataPoint D) → List ℕ
  hover_text mouse_x mouse_y [] = hint
  hover_text mouse_x mouse_y (p ∷ ps) =
      let rest = hover_text mouse_x mouse_y ps in
      if d.gt (q.decimal 100 1) (distance mouse_x mouse_y p) then point_text p else rest

unfoldable pub on_motion_event :
    {D : Type 0} ⦃d : Double D⦄ → Plots D → ℕ → ℕ → D → D → Viewer D → Viewer D
on_motion_event q width height mouse_x mouse_y c =
    emit (statusbar_push (hover_text q width height c.graph mouse_x mouse_y c.graph.points))
      (emit statusbar_pop c)
