-- ===== src/Actor/Tests.antt =====
-- A ping whose connection is closed, and a tare.
use motor_stand.Prelude.{◌≡◌, refl, ◌↔◌, true, [], ◌∷◌}
use motor_stand.Prelude.Int.{ℤ, pos}
use motor_stand.Prelude.Text.{codes}
use motor_stand.Integers.{whole_numbers}
use motor_stand.Auxiliary.{op_ack}
use motor_stand.Actor.{
  AverageData, interrupted, did, closed, Connection, accepted, send_server_message, request,
  write_callbacks, reset_average,
}
use motor_stand.Prelude.{List, ℕ}
use motor_stand.Actor.Commands.{actor_main}
use motor_stand.Actor.Commands.Report.{reports_success, Succeeded, actor_main-answered}
use motor_stand.Actor.Answers.{IsAnswered, send_server_message_iff, request-tare}

abbrev dropped : Connection ℤ
dropped = record {
  socket = true;
  bind = true;
  connect = true;
  writes = interrupted ∷ did tt ∷ [];
  reads = interrupted ∷ did closed ∷ [];
}

send_server_message_iff_example :
    (send_server_message op_ack (pos 0) dropped ≡ accepted) ↔ IsAnswered ℤ op_ack dropped
send_server_message_iff_example = send_server_message_iff op_ack (pos 0) dropped

-- The ping counts as answered.
pong : send_server_message op_ack (pos 0) dropped ≡ accepted
pong = (send_server_message_iff op_ack (pos 0) dropped).1 record {
  socket = refl;
  bind = refl;
  connect = refl;
  written = (1, [], refl);
  incoming = closed;
  read = (1, [], refl);
  answers = refl;
}

abbrev fresh : AverageData ℤ
fresh = record { value = pos 3; value_tare = pos 3; sum = pos 3; sum_tare = pos 3; count = 1 }

request-tare_example : ◌≡◌ {A = ℤ} (pos 0) (pos 0)
unfolding request write_callbacks reset_average
request-tare_example = request-tare (codes "actor" ∷ codes "tare" ∷ []) [] fresh (pos 0) refl

abbrev ping : List (List ℕ)
ping = codes "actor" ∷ codes "ping" ∷ []

actor_main-answered_example :
    (reports_success (actor_main ping [] [] dropped fresh) ≡ true)
    ↔ Succeeded ℤ dropped (request ping [] fresh)
actor_main-answered_example = actor_main-answered ping [] [] dropped fresh
