-- ===== src/Server/Stream.antt =====
-- No sample is lost, doubled or reordered on the way into the packets of src/load_cell_serv.c.
use motor_stand.Prelude.{
  ℕ, suc, ◌+◌, ◌*◌, ◌<◌, ◌≡◌, refl, sym, ap, ◌∙◌, inl, inr, Option, some, List, [], ◌∷◌, ◌++◌, map,
  append_assoc, append-nil, arith, ◌==◌, Bool-cases, length, take, set, All, All-append, length-set,
  take-set, length-append, length-replicate, length-take, length-map,
}
use motor_stand.Double.{Double}
use motor_stand.LoadCell.{batch_size, OutputMinimal, OutputBatch}
use motor_stand.Server.{
  Outbox, push_batch, Tick, Loop, collect, round, main_loop, empty_outbox, start, zero_entry,
}

-- What a client finds in a batch.
abbrev pub payload : OutputBatch → List OutputMinimal
payload b = take b.count b.entries

abbrev pub received : List OutputBatch → List OutputMinimal
received [] = []
received (b ∷ bs) = payload b ++ received bs

abbrev pub IsFull : OutputBatch → Type 0
IsFull b = (b.count ≡ batch_size) × (length b.entries ≡ batch_size)

pub record IsValid (out : Outbox) : Type 0 where
  pub room : out.batch.count < batch_size
  pub array : length out.batch.entries ≡ batch_size
  pub full : All IsFull out.sent

-- All samples that went in: those in packets, then those of the batch that is being filled.
abbrev pub history : Outbox → List OutputMinimal
history out = received out.sent ++ payload out.batch

received-append :
    (bs : List OutputBatch) (b : OutputBatch) → received (bs ++ b ∷ []) ≡ received bs ++ payload b
received-append [] b = append-nil _
received-append (a ∷ bs) b = rw (received-append bs b) (sym (append_assoc (payload a) _ _))

-- `push_batch` writes inside the array, sends only full batches and keeps the invariant.
pub push_batch-IsValid :
    (e : OutputMinimal) {out : Outbox} → IsValid out → IsValid (push_batch e out)
unfolding push_batch
push_batch-IsValid e {out} v = ground (
  arith,
  length-set out.batch.entries out.batch.count e,
  All-append IsFull out.sent
      (record { count = out.batch.count + 1; entries = set out.batch.entries out.batch.count e }
        ∷ [])
      v.full,
)

take-set_next :
    (xs : List OutputMinimal) (c : ℕ) (e : OutputMinimal)
    → c < length xs
    → take (c + 1) (set xs c e) ≡ take c xs ++ e ∷ []
take-set_next xs c e h = let next : c + 1 ≡ suc c = omega arith in rw next (take-set xs c e h)

-- `push_batch` adds its sample at the end of the history, whether or not it sends.
pub history-push_batch :
    (e : OutputMinimal) {out : Outbox}
    → IsValid out
    → history (push_batch e out) ≡ history out ++ e ∷ []
unfolding push_batch
history-push_batch e {out} v =
    let grown =
      take-set_next out.batch.entries out.batch.count e (omega (arith, v.room, v.array)) in
    let joined = append_assoc (received out.sent) (payload out.batch) (e ∷ []) in
    elim (Bool-cases (out.batch.count + 1 == batch_size)) [
      | inl full ↦ rw full (rw (received-append, append-nil, grown) (sym joined))
      | inr more ↦ rw more (rw grown (sym joined))
    ]

pub length-received :
    (bs : List OutputBatch) → All IsFull bs → length (received bs) ≡ batch_size * length bs
length-received [] f = refl
length-received (b ∷ bs) (f, fs) = omega (
  arith,
  length-append (payload b) (received bs),
  length-take b.count b.entries (omega arith),
  length-received bs fs,
)

empty_outbox-IsValid : IsValid empty_outbox
unfolding empty_outbox
empty_outbox-IsValid = record {
  room = omega arith;
  array = length-replicate batch_size zero_entry;
  full = tt;
}

history-empty_outbox : history empty_outbox ≡ []
unfolding empty_outbox
history-empty_outbox = refl

-- Another tare in a round.
abbrev pub retare : {D : Type 0} → (Tick D → D) → Tick D → Tick D
retare f t = record t { tare = f t }

module _ {D : Type 0} ⦃d : Double D⦄ (m b : D) where
  -- The samples of a run, as they were collected.
  abbrev pub samples : List (Tick D) → List OutputMinimal
  samples = map (λ t. (collect m b t).minimal)

  pub main_loop-nil : (l : Loop) → main_loop m b l [] ≡ l
  unfolding main_loop
  main_loop-nil l = refl

  pub main_loop-snoc :
      (l : Loop) (ts : List (Tick D)) (t : Tick D)
      → main_loop m b l (ts ++ t ∷ []) ≡ round m b (main_loop m b l ts) t
  unfolding main_loop
  main_loop-snoc l [] t = refl
  main_loop-snoc l (u ∷ ts) t = main_loop-snoc (round m b l u) ts t

  round-IsValid : (t : Tick D) (l : Loop) → IsValid l.outbox → IsValid (round m b l t).outbox
  unfolding round
  round-IsValid t l v = push_batch-IsValid _ v

  main_loop-IsValid :
      (ts : List (Tick D)) (l : Loop) → IsValid l.outbox → IsValid (main_loop m b l ts).outbox
  unfolding main_loop
  main_loop-IsValid [] l v = v
  main_loop-IsValid (t ∷ ts) l v = main_loop-IsValid ts (round m b l t) (round-IsValid t l v)

  history-main_loop :
      (ts : List (Tick D)) (l : Loop)
      → IsValid l.outbox
      → history (main_loop m b l ts).outbox ≡ history l.outbox ++ samples ts
  unfolding main_loop round
  history-main_loop [] l v = sym (append-nil _)
  history-main_loop (t ∷ ts) l v =
      let o = (collect m b t).minimal in
      history-main_loop ts (round m b l t) (round-IsValid t l v)
      ∙ ap (λ h. h ++ samples ts) (history-push_batch o v)
      ∙ append_assoc (history l.outbox) (o ∷ []) (samples ts)

  file-main_loop :
      (ts : List (Tick D)) (out : Outbox) (file : List OutputMinimal)
      → (main_loop m b (record { outbox = out; writethrough = some file }) ts).writethrough
        ≡ some (file ++ samples ts)
  unfolding main_loop round
  file-main_loop [] out file = ap some (sym (append-nil file))
  file-main_loop (t ∷ ts) out file =
      let o = (collect m b t).minimal in
      file-main_loop ts (push_batch o out) (file ++ o ∷ [])
      ∙ ap some (append_assoc file (o ∷ []) (samples ts))

  -- A run that starts with an empty batch puts its samples, in order and each once, into full packets,
  -- and keeps the fewer than BATCH_SIZE last ones in the batch, which is not sent at the end.
  pub main_loop-stream :
      (ts : List (Tick D)) (file : Option (List OutputMinimal))
      → let out = (main_loop m b (start file) ts).outbox in
        (received out.sent ++ payload out.batch ≡ samples ts)
        × All IsFull out.sent
        × (length ts ≡ batch_size * length out.sent + out.batch.count)
        × (out.batch.count < batch_size)
  unfolding start
  main_loop-stream ts file =
      let l = start file in
      let v : IsValid (main_loop m b l ts).outbox = main_loop-IsValid ts l empty_outbox-IsValid in
      let out = (main_loop m b l ts).outbox in
      let whole : history out ≡ samples ts =
        history-main_loop ts l empty_outbox-IsValid
        ∙ ap (λ h. h ++ samples ts) history-empty_outbox in
      (
        whole,
        v.full,
        omega (
          arith,
          ap length whole,
          length-append (received out.sent) (payload out.batch),
          length-received out.sent v.full,
          length-take out.batch.count out.batch.entries (omega (arith, v.room, v.array)),
          length-map (λ t. (collect m b t).minimal) ts,
        ),
        v.room,
      )

  -- With a file, the samples of the run are appended to it, those of the unsent batch included.
  pub main_loop-file :
      (ts : List (Tick D)) (file : List OutputMinimal)
      → (main_loop m b (start (some file)) ts).writethrough ≡ some (file ++ samples ts)
  unfolding start
  main_loop-file ts file = file-main_loop ts empty_outbox file

  -- Neither the tare nor the multipliers have any effect on the packets or the file.
  pub main_loop-retare :
      (m' b' : D) (f : Tick D → D) (ts : List (Tick D)) (l : Loop)
      → main_loop m b l ts ≡ main_loop m' b' l (map (retare f) ts)
  unfolding main_loop round collect
  main_loop-retare m' b' f [] l = refl
  main_loop-retare m' b' f (t ∷ ts) l = main_loop-retare m' b' f ts (round m b l t)
