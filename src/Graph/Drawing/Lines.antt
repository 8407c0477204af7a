-- ===== src/Graph/Drawing/Lines.antt =====
-- What the calls of on_draw_event of src/teststandui.c leave on the surface for the trace.
use motor_stand.Prelude.{ℕ, Option, none, some, List, [], ◌∷◌, ◌++◌, map}
use motor_stand.Double.{Double, ◌⊗◌}
use motor_stand.Double.Plots.{Plots}
use motor_stand.Graph.{DataPoint, GraphData}
use motor_stand.Graph.Drawing.{
  Cairo, move_to, line_to, arc, stroke, fill, set_line_width, int, screen_x, screen_y,
}

-- A point of a path: by its place, or on a circle by its centre, radius and angle.
pub data Spot (D : Type 0) : Type 0 where
  spot : D → D → Spot D
  on_circle : D → D → D → D → Spot D

-- A circular arc: its centre, its radius, and the angles between which it runs.
pub record Arc (D : Type 0) : Type 0 where
  pub x : D
  pub y : D
  pub radius : D
  pub first : D
  pub last : D

-- A line of a path with the width that it is stroked in.
pub record Stroke (D : Type 0) : Type 0 where
  pub from : Spot D
  pub to : Spot D
  pub width : D

abbrev pub stroked : {D : Type 0} → D → Spot D × Spot D → Stroke D
stroked width (from, to) = record { from = from; to = to; width = width }

module _ {D : Type 0} where
  -- The path of cairo is `open_`, its current point `here`, if it has one. To go on to a point adds a line
  -- to it, unless there is no current point.
  abbrev pub joined : Option (Spot D) → Spot D → List (Spot D × Spot D) → List (Spot D × Spot D)
  joined none to open_ = open_
  joined (some from) to open_ = open_ ++ (from, to) ∷ []

  -- The lines that are drawn: those of the path when `stroke` is called, in the width set last. A path
  -- that is not stroked draws no line; `stroke` and `fill` begin a new path.
  abbrev pub lines : D → Option (Spot D) → List (Spot D × Spot D) → List (Cairo D) → List (Stroke D)
  lines width here open_ [] = []
  lines width here open_ (move_to x y ∷ cs) = lines width (some (spot x y)) open_ cs
  lines width here open_ (line_to x y ∷ cs) =
      lines width (some (spot x y)) (joined here (spot x y) open_) cs
  lines width here open_ (arc x y r a b ∷ cs) =
      lines width (some (on_circle x y r b)) (joined here (on_circle x y r a) open_) cs
  lines width here open_ (set_line_width w ∷ cs) = lines w here open_ cs
  lines width here open_ (stroke ∷ cs) = map (stroked width) open_ ++ lines width none [] cs
  lines width here open_ (fill ∷ cs) = lines width none [] cs
  lines width here open_ (_ ∷ cs) = lines width here open_ cs

  -- The discs that are drawn: the arcs of the path when `fill` is called.
  abbrev pub discs : List (Arc D) → List (Cairo D) → List (Arc D)
  discs open_ [] = []
  discs open_ (arc x y r a b ∷ cs) =
      discs (open_ ++ record { x = x; y = y; radius = r; first = a; last = b } ∷ []) cs
  discs open_ (stroke ∷ cs) = discs [] cs
  discs open_ (fill ∷ cs) = open_ ++ discs [] cs
  discs open_ (_ ∷ cs) = discs open_ cs

-- Each element with the next.
abbrev pub joins : {A : Type 0} → List A → List (A × A)
joins [] = []
joins (a ∷ []) = []
joins (a ∷ b ∷ more) = (a, b) ∷ joins (b ∷ more)

module _ {D : Type 0} ⦃d : Double D⦄ (q : Plots D) (width height : ℕ) (gd : GraphData D) where
  abbrev pub place : DataPoint D → Spot D
  place p = spot (screen_x q width height gd p.x_time) (screen_y q width height gd p.y_value)

  -- The whole disc at a point.
  abbrev pub disc : D → DataPoint D → Arc D
  disc pi p = record {
    x = screen_x q width height gd p.x_time;
    y = screen_y q width height gd p.y_value;
    radius = q.decimal 30 1;
    first = int 0;
    last = int 2 ⊗ pi;
  }

  abbrev stroke_width : D
  stroke_width = int 2 ⊗ d.unit
