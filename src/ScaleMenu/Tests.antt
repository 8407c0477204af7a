-- ===== src/ScaleMenu/Tests.antt =====
-- A terminal that sends a tare with both characters at the end of the line, and then runs the scale.
use motor_stand.Prelude.{◌≡◌, refl, some, List, [], ◌∷◌, ◌++◌, arith}
use motor_stand.Prelude.Int.{ℤ, pos}
use motor_stand.ScaleMenu.{nothing, arrived, Request, menu_loops}
use motor_stand.ScaleMenu.Lines.{Line, typed, running, all_polls, all_obeyed, idle}
use motor_stand.ScaleMenu.Commands.{menu_loops-lines}

abbrev units : List Request → ℤ
units rs = pos 5

-- The second line is empty and so invalid.
abbrev session : List Line
session =
    typed (nothing ∷ arrived b't' ∷ nothing ∷ []) 13
    ∷ typed [] 10
    ∷ running (arrived b'e' ∷ []) 10 2 b'c'
    ∷ []

menu_loops-lines_example :
    menu_loops units 7 (all_polls session ++ nothing ∷ []) (idle [])
    ≡ some (idle (all_obeyed units session []), nothing ∷ [])
menu_loops-lines_example = menu_loops-lines units session (nothing ∷ []) [] (
  ((refl, tt), refl, λ e. ground arith),
  ((tt, refl, λ e. ground arith), (((refl, tt), refl, refl), tt)),
)
