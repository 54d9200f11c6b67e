-- ===== src/Storage/Queue/Worker/Bounds.antt =====
-- The batch of the worker (pkg/storage/queue.go) stays below its maximal size, and the batch timer
-- runs exactly while the batch holds a task; and the worker gets everything written.
use content_storage_server.Prelude.{
  ◌<◌, ◌≡◌, refl, ap, inl, inr, Bool, not, Option, none, some, List, [], ◌∷◌, ◌++◌, arith, length,
  length-append, is_nil, Bool-cases, if_induction, ◌==◌, ◌||◌,
}
use content_storage_server.Prelude.Int64.{sle}
use content_storage_server.Storage.Badger.{Badger, Codec}
use content_storage_server.Storage.Queue.{Queue, Chan, WriteTask}
use content_storage_server.Storage.Queue.Batch.{process_batch}
use content_storage_server.Storage.Queue.Batch.Frame.{Frame, process_batch-frame}
use content_storage_server.Storage.Queue.Worker.{
  Phase, running, stopping, exited, System, Event, receive, timeout, resized, stop_seen, finish,
  with_rest, idle, received, receive_from, receive_case, select_case, stop_case, step_in,
  worker_step, run_worker,
}

module _ {D : Type 0} where
  pub record IsWorking (s : System D) : Type 0 where
    pub positive : 0 < s.queue.max_batch_size
    pub signed : s.queue.max_batch_size < 9223372036854775808
    pub below : length s.batch < s.queue.max_batch_size
    pub timed : s.timer ≡ not (is_nil s.batch)

snoc_timer :
    (xs : List WriteTask) (t : WriteTask) (timer : Bool)
    → timer ≡ not (is_nil xs)
    → ((length (xs ++ t ∷ []) == 1) || timer) ≡ not (is_nil (xs ++ t ∷ []))
snoc_timer [] t timer h = refl
snoc_timer (x ∷ xs) t timer h = ground (arith, length-append xs (t ∷ []))

module _ {D B : Type 0} (b : Badger D B) (j : Codec) where
  process_batch-size :
      (q : Queue D) (ts : List WriteTask)
      → (process_batch b j q ts).max_batch_size ≡ q.max_batch_size
  process_batch-size q ts = ap (λ (f : Frame). f.max_batch_size) (process_batch-frame b j q ts)

  idle-IsWorking :
      (s : System D) (ts : List WriteTask) (q : Queue D)
      → q.max_batch_size ≡ s.queue.max_batch_size
      → IsWorking s
      → IsWorking (idle s (process_batch b j q ts))
  idle-IsWorking s ts q e w = record {
    positive = omega (arith, process_batch-size q ts, w.positive);
    signed = omega (arith, process_batch-size q ts, w.signed);
    below = omega (arith, process_batch-size q ts, w.positive);
    timed = refl;
  }

  received-IsWorking :
      (s : System D) (c : Chan) (ts : List WriteTask) (t : WriteTask)
      → IsWorking s
      → IsWorking (received b j s (with_rest s.queue c ts) t)
  unfolding received
  received-IsWorking s c ts t w =
      let q = with_rest s.queue c ts in
      let batch' = s.batch ++ t ∷ [] in
      elim (Bool-cases (sle q.max_batch_size (length batch'))) [
        | inl full ↦ rw (full, received) (idle-IsWorking s batch' q refl w)
        | inr more ↦
            rw (more, received)
              (record {
                positive = w.positive;
                signed = w.signed;
                below = ground (arith, w.signed, w.below, more, length-append s.batch (t ∷ []));
                timed = snoc_timer s.batch t s.timer w.timed;
              })
      ]

  receive_from-IsWorking :
      (s : System D) (c : Chan) (ts : List WriteTask)
      → IsWorking s
      → IsWorking (receive_from b j s c ts)
  unfolding receive_from
  receive_from-IsWorking s c [] w = w
  receive_from-IsWorking s c (t ∷ ts) w = received-IsWorking s c ts t w

  receive_case-IsWorking :
      (s : System D) (o : Option Chan) → IsWorking s → IsWorking (receive_case b j s o)
  unfolding receive_case
  receive_case-IsWorking s none w = w
  receive_case-IsWorking s (some c) w = receive_from-IsWorking s c c.buffered w

  same_locals :
      (s : System D) (q : Queue D) (p : Phase)
      → q.max_batch_size ≡ s.queue.max_batch_size
      → IsWorking s
      → IsWorking (record s { queue = q; phase = p })
  same_locals s q p e w = record {
    positive = omega (arith, e, w.positive);
    signed = omega (arith, e, w.signed);
    below = omega (arith, e, w.below);
    timed = w.timed;
  }

  pub step_in-IsWorking :
      (p : Phase) (s : System D) (e : Event) → IsWorking s → IsWorking (step_in b j p s e)
  unfolding step_in select_case stop_case
  step_in-IsWorking running s receive w = receive_case-IsWorking s s.queue.write_queue w
  step_in-IsWorking running s timeout w =
      if_induction IsWorking s.timer (idle-IsWorking s s.batch s.queue refl w) w
  step_in-IsWorking running s resized w = same_locals s _ s.phase refl w
  step_in-IsWorking running s stop_seen w =
      if_induction IsWorking s.queue.stopped (same_locals s s.queue stopping refl w) w
  step_in-IsWorking running s finish w = w
  step_in-IsWorking stopping s finish w =
      let s' = idle s (process_batch b j s.queue s.batch) in
      same_locals s' s'.queue exited refl (idle-IsWorking s s.batch s.queue refl w)
  step_in-IsWorking stopping s receive w = w
  step_in-IsWorking stopping s timeout w = w
  step_in-IsWorking stopping s resized w = w
  step_in-IsWorking stopping s stop_seen w = w
  step_in-IsWorking exited s e w = w

  -- If the batch size is positive and below 2 ^ 63, the worker keeps it so that between its steps
  -- it holds fewer tasks than a full batch, and the batch timer runs exactly if it holds one: no
  -- task waits in the batch without a timeout to come.
  pub run_worker-IsWorking :
      (s : System D) (es : List Event) → IsWorking s → IsWorking (run_worker b j s es)
  unfolding run_worker worker_step
  run_worker-IsWorking s [] w = w
  run_worker-IsWorking s (e ∷ es) w =
      run_worker-IsWorking (worker_step b j s e) es (step_in-IsWorking s.phase s e w)
