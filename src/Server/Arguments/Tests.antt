-- ===== src/Server/Arguments/Tests.antt =====
-- Command lines of the server, with a `strtod` that reads one digit.
use motor_stand.Prelude.{
  ℕ, zero, suc, ◌-◌, ◌≡◌, refl, true, ◌&&◌, none, List, [], ◌∷◌, leb, if◌then◌else◌, All,
  length-replicate, replicate, arith,
}
use motor_stand.Prelude.Int.{ℤ, pos}
use motor_stand.Prelude.Text.{codes}
use motor_stand.Double.{Strtod}
use motor_stand.Server.Arguments.{weights, ready, faulted, ServerCalls, command_line}
use motor_stand.Server.Arguments.Weights.{
  comma_list, Reads, command_line-weights, command_line-overflow,
}

abbrev one_digit : Strtod ℤ
one_digit [] = (pos 0, [])
one_digit (c ∷ rest) =
    if leb b'0' c && leb c b'9' then (pos (c - b'0'), rest) else (pos 0, c ∷ rest)

abbrev value : List ℕ → ℤ
value t = (one_digit t).0

abbrev willing : ServerCalls
willing = record {
  socket = true;
  broadcast = true;
  pton = λ address. true;
  opens = λ name. true;
  writes_flag = λ name. true;
}

abbrev home : List ℕ
home = codes "127.0.0.1"

-- No digit is left of "1,2,3" in front of the first comma, so that its value is zero.
no_digit : Reads one_digit value []
no_digit [] e = refl
no_digit (c ∷ rest) e = rw e refl

command_line-weights_example :
    command_line one_digit willing (codes "server" ∷ codes "-c" ∷ codes "1,2,3" ∷ home ∷ [])
    ≡ ready (weights (pos 0 ∷ pos 2 ∷ pos 3 ∷ [])) none
command_line-weights_example =
    command_line-weights one_digit value willing (codes "server") home b'1' []
      (codes "2" ∷ codes "3" ∷ []) (refl, refl, refl)
      (no_digit, ((λ rest e. refl), ((λ rest e. refl), tt))) (omega arith)

all_ones : (n : ℕ) → All (Reads one_digit value) (replicate n (codes "1"))
all_ones zero = tt
all_ones (suc n) = ((λ rest e. refl), all_ones n)

command_line-overflow_example :
    command_line one_digit willing (
      codes "server"
      ∷ codes "-c"
      ∷ (b' ' ∷ comma_list (codes "1") (replicate 80 (codes "1")))
      ∷ home
      ∷ [])
    ≡ faulted
command_line-overflow_example =
    command_line-overflow one_digit value willing (codes "server") home b' ' (codes "1")
      (replicate 80 (codes "1")) (refl, refl, refl) (all_ones 81)
      (omega (arith, length-replicate 80 (codes "1")))
