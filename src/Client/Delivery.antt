-- ===== src/Client/Delivery.antt =====
-- What the callback of a client of src/load_cell_cli.c gets to see, and the log that the packets of a
-- run leave behind.
use motor_stand.Prelude.{
  ℕ, ◌≡◌, refl, sym, ap, ◌∙◌, none, some, List, [], ◌∷◌, ◌++◌, append_assoc, append-nil, arith, All,
  true, leb, length, ◌<◌,
}
use motor_stand.Double.{Double}
use motor_stand.LoadCell.{batch_size, OutputBatch}
use motor_stand.Client.{Receive, datagram, failed, receive_loop}
use motor_stand.Server.{Tick, main_loop, start}
use motor_stand.Server.Stream.{IsFull, received, payload, samples, main_loop-stream}
use motor_stand.Logger.{LoggerData, write_callback_batch}
use motor_stand.Logger.Lines.{lines, lines-append, write_callback_batch-lines}

-- The batches that the callback is called with: a failed receive repeats the one before it.
abbrev pub seen : OutputBatch → List Receive → List OutputBatch
seen message [] = []
seen message (datagram b ∷ rs) = b ∷ seen b rs
seen message (failed ∷ rs) = message ∷ seen message rs

abbrev pub datagrams : List OutputBatch → List Receive
datagrams [] = []
datagrams (b ∷ bs) = datagram b ∷ datagrams bs

module _ {D : Type 0} ⦃d : Double D⦄ (l : LoggerData D) where
  log_full :
      (b : OutputBatch) (file : List ℕ)
      → IsFull b
      → write_callback_batch l b file ≡ some (file ++ lines l (payload b))
  log_full b file f =
      let within : leb b.count (length b.entries) ≡ true = ground arith in
      write_callback_batch-lines l b file ∙ rw within

  -- As long as every batch that is seen is full, the logger appends the lines of all of them; a failed
  -- receive logs the batch before it once more.
  pub receive_loop-log :
      (rs : List Receive) (message : OutputBatch) (file : List ℕ)
      → All IsFull (seen message rs)
      → receive_loop (write_callback_batch l) message file rs
        ≡ some (file ++ lines l (received (seen message rs)))
  unfolding receive_loop
  receive_loop-log [] message file f = ap some (sym (append-nil file))
  receive_loop-log (datagram b ∷ rs) message file (f, fs) =
      rw (log_full b file f, receive_loop)
        (receive_loop-log rs b (file ++ lines l (payload b)) fs
          ∙ ap some (append_assoc file _ _ ∙ ap (λ t. file ++ t) (sym (lines-append l _ _))))
  receive_loop-log (failed ∷ rs) message file (f, fs) =
      rw (log_full message file f, receive_loop)
        (receive_loop-log rs message (file ++ lines l (payload message)) fs
          ∙ ap some (append_assoc file _ _ ∙ ap (λ t. file ++ t) (sym (lines-append l _ _))))

seen-datagrams : (bs : List OutputBatch) (message : OutputBatch) → seen message (datagrams bs) ≡ bs
seen-datagrams [] message = refl
seen-datagrams (b ∷ bs) message = ap (λ t. b ∷ t) (seen-datagrams bs b)

module _ {D : Type 0} ⦃d : Double D⦄ (m b : D) (l : LoggerData D) where
  -- From the ADC to the log: if every packet of a run arrives, the logger's file is the lines of the
  -- samples of the run, in order, but for the fewer than BATCH_SIZE last ones, which are never sent.
  pub log-main_loop :
      (ts : List (Tick D)) (message : OutputBatch) (file : List ℕ)
      → let out = (main_loop m b (start none) ts).outbox in
        (log : List ℕ) × (receive_loop (write_callback_batch l) message file (datagrams out.sent)
          ≡ some log)
        × (log ++ lines l (payload out.batch) ≡ file ++ lines l (samples m b ts))
        × (out.batch.count < batch_size)
  log-main_loop ts message file =
      let out = (main_loop m b (start none) ts).outbox in
      let (whole, full, _, few) = main_loop-stream m b ts none in
      let arrived = seen-datagrams out.sent message in
      let logged = receive_loop-log l (datagrams out.sent) message file (rw arrived full) in
      (
        file ++ lines l (received out.sent),
        logged ∙ rw arrived,
        append_assoc file _ _ ∙ ap (λ t. file ++ t) (sym (lines-append l _ _) ∙ ap (lines l) whole),
        few,
      )
