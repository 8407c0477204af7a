-- ===== src/Actor/Commands/Report.antt =====
-- What the lines of src/load_cell_actor.c say of the answer of the server.
use motor_stand.Prelude.{
  ℕ, ◌≡◌, refl, ap, sym, ◌∙◌, ◌↔◌, true, false, Bool, Bool-cases, inl, inr, Option, none, some,
  List, [], ◌∷◌, ◌++◌, ◌≢◌, length-append, if◌then◌else◌, ◌==◌, get_or, length, arith,
}
use motor_stand.Prelude.Text.{codes, eq_text, eq_text_iff}
use motor_stand.Double.{Double}
use motor_stand.LoadCell.{OutputBatch}
use motor_stand.Auxiliary.{OpType}
use motor_stand.Actor.{
  AverageData, Connection, Sent, pending, refused, accepted, send_server_message, reset_average,
  write_callbacks, request,
}
use motor_stand.Actor.Answers.{IsAnswered, send_server_message_iff}
use motor_stand.Actor.Commands.{outcome, tare_lines, actor_main, average_line}

-- A line that reports success.
abbrev pub is_success : List ℕ → Bool
is_success line =
    if eq_text line (codes "pong")
    then true
    else if eq_text line (codes "reset succeeded")
    then true
    else eq_text line (codes "tare succeeded")

abbrev pub reports_success : List (List ℕ) → Bool
reports_success [] = false
reports_success (line ∷ more) =
    let rest = reports_success more in if is_success line then true else rest

abbrev is_accepted : Sent → Bool
is_accepted pending = false
is_accepted refused = false
is_accepted accepted = true

is_accepted_iff : (s : Sent) → (is_accepted s ≡ true) ↔ (s ≡ accepted)
is_accepted_iff pending = ground arith
is_accepted_iff refused = ground arith
is_accepted_iff accepted = ground arith

-- There is a message, and it is answered.
abbrev pub Succeeded : (D : Type 0) → Connection D → Option (OpType × D) → Type 0
Succeeded D c none = ⊥
Succeeded D c (some (op, value)) = IsAnswered D op c

eq_text-length : (s t : List ℕ) → length s ≢ length t → eq_text s t ≡ false
eq_text-length s t h = elim (Bool-cases (eq_text s t)) [
  | inl same ↦ absurd (h (ap length ((eq_text_iff s t).0 same)))
  | inr other ↦ other
]

-- The line with the usage is longer than those that report success.
usage-is_success : (name : List ℕ) → is_success (name ++ codes " [ ping | reset | tare ]") ≡ false
usage-is_success name =
    let usage = codes " [ ping | reset | tare ]" in
    let long = length-append name usage in
    rw
      (
        eq_text-length (name ++ usage) (codes "pong") (λ e. omega (arith, long, e)),
        eq_text-length (name ++ usage) (codes "reset succeeded") (λ e. omega (arith, long, e)),
        eq_text-length (name ++ usage) (codes "tare succeeded") (λ e. omega (arith, long, e)),
      )
      refl

ping-reports :
    (s : Sent)
    → reports_success (codes "ping" ∷ outcome s (codes "pong" ∷ []) (codes "ping failed" ∷ []))
      ≡ is_accepted s
ping-reports pending = refl
ping-reports refused = refl
ping-reports accepted = refl

reset-reports :
    (s : Sent)
    → reports_success (
        codes "resetting..." ∷ outcome s (codes "reset succeeded" ∷ []) (codes "reset failed" ∷ []))
      ≡ is_accepted s
reset-reports pending = refl
reset-reports refused = refl
reset-reports accepted = refl

module _ {D : Type 0} ⦃d : Double D⦄ where
  tare-reports :
      (s : Sent) (prior post : D)
      → reports_success (
          codes "collecting prior average"
          ∷ average_line prior
          ∷ codes "performing tare"
          ∷ outcome s
              (codes "tare succeeded" ∷ codes "collecting post average" ∷ average_line post ∷ [])
              (codes "tare failed" ∷ []))
        ≡ is_accepted s
  tare-reports pending prior post = refl
  tare-reports refused prior post = refl
  tare-reports accepted prior post = refl

  -- What a request makes of its message.
  abbrev accepts : Connection D → Option (OpType × D) → Bool
  accepts c none = false
  accepts c (some (op, value)) = is_accepted (send_server_message op value c)

  accepts_iff :
      (c : Connection D) (r : Option (OpType × D)) → (accepts c r ≡ true) ↔ Succeeded D c r
  accepts_iff c none = (λ e. ground arith, λ a. absurd a)
  accepts_iff c (some (op, value)) =
      let (there, back) = send_server_message_iff op value c in
      let (into, out) = is_accepted_iff (send_server_message op value c) in
      (λ e. there (into e), λ a. out (back a))

  actor_main-accepts :
      (argv : List (List ℕ)) (before after : List OutputBatch) (c : Connection D)
      (avg : AverageData D)
      → reports_success (actor_main argv before after c avg) ≡ accepts c (request argv before avg)
  unfolding actor_main request tare_lines
  actor_main-accepts argv before after c avg =
      let command = get_or argv 1 [] in
      elim (Bool-cases (length argv == 2)) [
        | inr other ↦ rw (other, usage-is_success (get_or argv 0 [])) refl
        | inl two ↦ elim (Bool-cases (eq_text command (codes "ping"))) [
          | inl e ↦ rw (two, e) (ping-reports _)
          | inr e ↦ elim (Bool-cases (eq_text command (codes "reset"))) [
            | inl f ↦ rw (two, e, f) (reset-reports _)
            | inr f ↦ elim (Bool-cases (eq_text command (codes "tare"))) [
              | inl g ↦
                  rw (two, e, f, g)
                    (tare-reports _ (write_callbacks before (reset_average avg)).value _)
              | inr g ↦ rw (two, e, f, g) refl
            ]
          ]
        ]
      ]

  -- The program reports success exactly if its command sends a message, and the socket is set up and
  -- connected, the first write that is not interrupted succeeds, and the first read that is not
  -- interrupted brings an acknowledgement or, for a ping, the end of the connection.
  pub actor_main-answered :
      (argv : List (List ℕ)) (before after : List OutputBatch) (c : Connection D)
      (avg : AverageData D)
      → (reports_success (actor_main argv before after c avg) ≡ true)
        ↔ Succeeded D c (request argv before avg)
  actor_main-answered argv before after c avg =
      let same = actor_main-accepts argv before after c avg in
      let (there, back) = accepts_iff c (request argv before avg) in
      (λ e. there (sym same ∙ e), λ a. same ∙ back a)
