-- ===== src/Storage/Queue/Worker/Ends.antt =====
-- `stopWorker` of pkg/storage/queue.go: when it returns, the worker holds no task any more.
use content_storage_server.Prelude.{
  Bytes, ◌≡◌, refl, ap, ◌∙◌, ◌⊎◌, inl, inr, true, false, Option, none, some, List, [], ◌∷◌, ◌++◌,
  arith, if_induction, if◌then◌else◌,
}
use content_storage_server.Storage.Badger.{Badger, Codec, IsBadger}
use content_storage_server.Storage.Queue.{Queue, Chan, WriteTask}
use content_storage_server.Storage.Queue.Batch.Durable.{IsReliable}
use content_storage_server.Storage.Queue.Worker.{
  Phase, running, stopping, exited, System, Event, receive, timeout, resized, stop_seen, finish,
  with_rest, receive_from, receive_case, select_case, stop_case, step_in, worker_step, run_worker,
  stop_worker,
}
use content_storage_server.Storage.Queue.Worker.Eventual.{eventual, run_worker-eventual, uncovered}
use content_storage_server.Storage.Queue.Worker.Cover.{run_worker-uncovered}
use content_storage_server.Storage.Queue.Worker.Progress.{received-parts}
use content_storage_server.Storage.Queue.Worker.Stable.{Stable, stopped_Stable, run_worker-Stable}

module _ {D : Type 0} where
  -- A worker that has exited holds nothing.
  pub record IsSettled (s : System D) : Type 0 where
    pub empty : s.phase ≡ exited → s.batch ≡ []

module _ {D B : Type 0} (b : Badger D B) (j : Codec) where
  receive_from-phase :
      (s : System D) (c : Chan) (ts : List WriteTask) → (receive_from b j s c ts).phase ≡ s.phase
  unfolding receive_from
  receive_from-phase s c [] = refl
  receive_from-phase s c (t ∷ ts) = (received-parts b j s (with_rest s.queue c ts) t).1

  receive-phase : (s : System D) (o : Option Chan) → (receive_case b j s o).phase ≡ s.phase
  unfolding receive_case
  receive-phase s none = refl
  receive-phase s (some c) = receive_from-phase s c c.buffered

  select-phase :
      (s : System D) (e : Event)
      → ((select_case b j s e).phase ≡ s.phase) ⊎ ((select_case b j s e).phase ≡ stopping)
  unfolding select_case
  select-phase s receive = inl (receive-phase s s.queue.write_queue)
  select-phase s timeout =
      inl (if_induction (λ (x : System D). x.phase ≡ s.phase) s.timer refl refl)
  select-phase s resized = inl refl
  select-phase s stop_seen = ground arith
  select-phase s finish = inl refl

  step_in-IsSettled :
      (p : Phase) (s : System D) (e : Event)
      → s.phase ≡ p
      → IsSettled s
      → IsSettled (step_in b j p s e)
  unfolding step_in stop_case
  step_in-IsSettled running s e h st = record {
    empty = λ x. elim (select-phase s e) [ inl same ↦ cc (h, same, x) | inr other ↦ cc (other, x) ];
  }
  step_in-IsSettled stopping s finish h st = record { empty = λ x. refl }
  step_in-IsSettled stopping s receive h st = st
  step_in-IsSettled stopping s timeout h st = st
  step_in-IsSettled stopping s resized h st = st
  step_in-IsSettled stopping s stop_seen h st = st
  step_in-IsSettled exited s e h st = st

  run_worker-IsSettled :
      (s : System D) (es : List Event) → IsSettled s → IsSettled (run_worker b j s es)
  unfolding run_worker worker_step
  run_worker-IsSettled s [] st = st
  run_worker-IsSettled s (e ∷ es) st =
      run_worker-IsSettled (worker_step b j s e) es (step_in-IsSettled s.phase s e refl st)

  run_worker-append :
      (s : System D) (es fs : List Event)
      → run_worker b j s (es ++ fs) ≡ run_worker b j (run_worker b j s es) fs
  unfolding run_worker
  run_worker-append s [] fs = refl
  run_worker-append s (e ∷ es) fs = run_worker-append (worker_step b j s e) es fs

  step_at :
      (p : Phase) (s : System D) (e : Event) → s.phase ≡ p → worker_step b j s e ≡ step_in b j p s e
  unfolding worker_step
  step_at p s e h = ap (λ ph. step_in b j ph s e) h

  stop_running :
      (s : System D)
      → s.queue.stopped ≡ true
      → select_case b j s stop_seen ≡ record s { phase = stopping }
  unfolding select_case
  stop_running s h = ap (λ t. if t then record s { phase = stopping } else s) h

  HasEnded : System D → Type 0
  HasEnded s = (run_worker b j s (stop_seen ∷ finish ∷ [])).batch ≡ []

  last_steps :
      (p : Phase) (s : System D) → s.phase ≡ p → s.queue.stopped ≡ true → IsSettled s → HasEnded s
  unfolding HasEnded run_worker step_in stop_case worker_step
  last_steps running s h stopped st =
      ap (λ x. (worker_step b j x finish).batch)
        (step_at running s stop_seen h ∙ stop_running s stopped)
  last_steps stopping s h stopped st =
      ap (λ x. (worker_step b j x finish).batch) (step_at stopping s stop_seen h)
      ∙ ap (λ (x : System D). x.batch) (step_at stopping s finish h)
  last_steps exited s h stopped st =
      ap (λ x. (worker_step b j x finish).batch) (step_at exited s stop_seen h)
      ∙ ap (λ (x : System D). x.batch) (step_at exited s finish h)
      ∙ st.empty h

  -- The state with the stop channel closed.
  abbrev signalled : System D → System D
  signalled s = record s { queue = record s.queue { stopped = true } }

  stop_worker_lem :
      (s : System D) (es : List Event)
      → s.queue.stopped ≡ false
      → stop_worker b j es s ≡ run_worker b j (signalled s) (es ++ stop_seen ∷ finish ∷ [])
  unfolding stop_worker
  stop_worker_lem s es h = rw (h, stop_worker)

  -- If the queue is not stopped yet, and a worker that has exited holds nothing: however long the
  -- worker goes on before it sees the signal, it holds no task when the call returns.
  pub stop_worker-ends :
      (s : System D) (es : List Event)
      → s.queue.stopped ≡ false
      → IsSettled s
      → (stop_worker b j es s).batch ≡ []
  unfolding HasEnded
  stop_worker-ends s es h st =
      let s' = run_worker b j (signalled s) es in
      ap (λ (x : System D). x.batch)
        (stop_worker_lem s es h ∙ run_worker-append (signalled s) es (stop_seen ∷ finish ∷ []))
      ∙ last_steps s'.phase s' refl
          (run_worker-Stable b j (stopped_Stable b j) (signalled s) es refl)
          (run_worker-IsSettled (signalled s) es (record { empty = st.empty }))

  pub stop_worker-eventual :
      IsBadger b
      → IsReliable b
      → (s : System D) (es : List Event) → s.queue.stopped ≡ false
      → eventual b j (stop_worker b j es s) ≡ eventual b j s
  stop_worker-eventual L r s es h =
      ap (eventual b j) (stop_worker_lem s es h)
      ∙ run_worker-eventual b j L r (signalled s) (es ++ stop_seen ∷ finish ∷ [])

  -- For a property that does not depend on the stop flag either.
  pub stop_worker-Stable :
      {P : Queue D → Type 0} (st : Stable b j P) (s : System D) (es : List Event)
      → s.queue.stopped ≡ false
      → P (signalled s).queue
      → P (stop_worker b j es s).queue
  stop_worker-Stable {P} st s es h p =
      rw (stop_worker_lem s es h)
        (run_worker-Stable b j st (signalled s) (es ++ stop_seen ∷ finish ∷ []) p)

  pub stop_worker-uncovered :
      (s : System D) (es : List Event) (k : Bytes)
      → s.queue.stopped ≡ false
      → uncovered (stop_worker b j es s) k ≡ uncovered s k
  stop_worker-uncovered s es k h =
      ap (λ x. uncovered x k) (stop_worker_lem s es h)
      ∙ run_worker-uncovered b j (signalled s) (es ++ stop_seen ∷ finish ∷ []) k
