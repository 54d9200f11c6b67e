-- ===== src/Storage/Queue/Worker/Eventual.antt =====
-- The worker of pkg/storage/queue.go keeps the order of the writes: what the database will show once
-- everything outstanding is written is fixed when a task enters the channel, and no step changes it.
use content_storage_server.Prelude.{
  ◌≡◌, refl, sym, ap, ◌∙◌, ◌||◌, Option, none, some, List, [], ◌∷◌, ◌++◌, append_assoc, arith,
  Bytes, length, if◌then◌else◌, Bool-cases, inl, inr,
}
use content_storage_server.Prelude.Int64.{sle}
use content_storage_server.Storage.Badger.{Badger, Codec, IsBadger}
use content_storage_server.Storage.Queue.{Queue, Chan, WriteTask, queued}
use content_storage_server.Storage.Queue.Batch.{process_batch, names}
use content_storage_server.Storage.Queue.Batch.Durable.{
  View, apply_tasks, apply_task, apply_tasks-one, apply_tasks-append, IsReliable,
  process_batch-apply,
}
use content_storage_server.Storage.Queue.Batch.Frame.{Frame, process_batch-frame}
use content_storage_server.Storage.Queue.Batch.Pending.{pending}
use content_storage_server.Storage.Queue.Write.Accept.{Took}
use content_storage_server.Storage.Queue.Worker.{
  Phase, running, stopping, exited, System, Event, receive, timeout, resized, stop_seen, finish,
  with_rest, idle, received, receive_from, receive_case, select_case, stop_case, step_in,
  worker_step, run_worker,
}

module _ {D : Type 0} where
  -- The tasks that are not written yet, oldest first.
  abbrev pub outstanding : System D → List WriteTask
  outstanding s = s.batch ++ queued s.queue.write_queue

  -- The pending item of a key for which no task is still to be written.
  abbrev pub uncovered : System D → Bytes → Option WriteTask
  uncovered s k = if names (outstanding s) k then none else pending s.queue k

pub names-append :
    (xs ys : List WriteTask) (k : Bytes) → names (xs ++ ys) k ≡ (names xs k || names ys k)
unfolding names
names-append [] ys k = refl
names-append (x ∷ xs) ys k = ground (arith, names-append xs ys k)

module _ {D B : Type 0} (b : Badger D B) (j : Codec) where
  -- What reads will show once everything outstanding is written, in order.
  abbrev pub eventual : System D → View
  eventual s = apply_tasks j (b.read s.queue.db) (outstanding s)

  pub process_batch-queue :
      (q : Queue D) (ts : List WriteTask) → (process_batch b j q ts).write_queue ≡ q.write_queue
  process_batch-queue q ts = ap (λ (f : Frame). f.write_queue) (process_batch-frame b j q ts)

  module _ (L : IsBadger b) (r : IsReliable b) where
    flushed-eventual :
        (s : System D) (q : Queue D) (ts : List WriteTask)
        → eventual (idle s (process_batch b j q ts))
          ≡ apply_tasks j (b.read q.db) (ts ++ queued q.write_queue)
    flushed-eventual s q ts =
        rw (process_batch-queue q ts, process_batch-apply b j L r q ts)
          (sym (apply_tasks-append j (b.read q.db) ts (queued q.write_queue)))

    pub received-eventual :
        (s : System D) (q : Queue D) (t : WriteTask)
        → eventual (received b j s q t)
          ≡ apply_tasks j (b.read q.db) (s.batch ++ t ∷ queued q.write_queue)
    unfolding received
    received-eventual s q t =
        let batch' = s.batch ++ t ∷ [] in
        let assoc = append_assoc s.batch (t ∷ []) (queued q.write_queue) in
        elim (Bool-cases (sle q.max_batch_size (length batch'))) [
          | inl full ↦
              rw (full, received)
                (flushed-eventual s q batch' ∙ ap (apply_tasks j (b.read q.db)) assoc)
          | inr more ↦ rw (more, received) (ap (apply_tasks j (b.read q.db)) assoc)
        ]

    receive_from-eventual :
        (s : System D) (c : Chan) (ts : List WriteTask)
        → s.queue.write_queue ≡ some c
        → c.buffered ≡ ts
        → eventual (receive_from b j s c ts) ≡ eventual s
    unfolding receive_from
    receive_from-eventual s c [] e h = refl
    receive_from-eventual s c (t ∷ ts) e h =
        received-eventual s (with_rest s.queue c ts) t ∙ (rw (e, h))

    receive-eventual :
        (s : System D) (o : Option Chan)
        → s.queue.write_queue ≡ o
        → eventual (receive_case b j s o) ≡ eventual s
    unfolding receive_case
    receive-eventual s none e = refl
    receive-eventual s (some c) e = receive_from-eventual s c c.buffered e refl

    pub step_in-eventual :
        (p : Phase) (s : System D) (e : Event) → eventual (step_in b j p s e) ≡ eventual s
    unfolding step_in select_case stop_case
    step_in-eventual running s receive = receive-eventual s s.queue.write_queue refl
    step_in-eventual running s timeout = elim (Bool-cases s.timer) [
      | inl on ↦ rw (on, select_case) (flushed-eventual s s.queue s.batch)
      | inr off ↦ rw (off, select_case) refl
    ]
    step_in-eventual running s resized = refl
    step_in-eventual running s stop_seen = ground arith
    step_in-eventual running s finish = refl
    step_in-eventual stopping s finish = flushed-eventual s s.queue s.batch
    step_in-eventual stopping s receive = refl
    step_in-eventual stopping s timeout = refl
    step_in-eventual stopping s resized = refl
    step_in-eventual stopping s stop_seen = refl
    step_in-eventual exited s e = refl

    -- On a database that takes every write, whatever the worker does, in whatever order its cases
    -- are ready, the outstanding writes will show what they would have shown before.
    pub run_worker-eventual :
        (s : System D) (es : List Event) → eventual (run_worker b j s es) ≡ eventual s
    unfolding run_worker worker_step
    run_worker-eventual s [] = refl
    run_worker-eventual s (e ∷ es) =
        run_worker-eventual (worker_step b j s e) es ∙ step_in-eventual s.phase s e

  -- A write that is taken is the next write of its key: it goes behind everything outstanding.
  pub Took-eventual :
      (s : System D) (t : WriteTask) (q : Queue D)
      → Took s.queue t q
      → eventual (record s { queue = q }) ≡ apply_task j (eventual s) t
  Took-eventual s t q took =
      rw (took.appended, took.same_db, ← append_assoc s.batch (queued s.queue.write_queue) (t ∷ []))
        (apply_tasks-append j (b.read s.queue.db) (outstanding s) (t ∷ [])
          ∙ apply_tasks-one j (eventual s) t)
