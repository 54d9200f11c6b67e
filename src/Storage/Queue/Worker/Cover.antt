-- ===== src/Storage/Queue/Worker/Cover.antt =====
-- The pending items of pkg/storage/queue.go against the writes that are still to come, as long as
-- `QueueWrite` and the steps of the worker do not overlap.
use content_storage_server.Prelude.{
  ◌≡◌, refl, sym, ap, ◌∙◌, Option, none, some, List, [], ◌∷◌, ◌++◌, append_assoc, arith, Bytes,
  length, if◌then◌else◌, if_induction, str_eq,
}
use content_storage_server.Prelude.Int64.{sle}
use content_storage_server.Storage.Badger.{Badger, Codec}
use content_storage_server.Storage.Queue.{Queue, Chan, WriteTask, task_id, queued}
use content_storage_server.Storage.Queue.Batch.{process_batch, names}
use content_storage_server.Storage.Queue.Batch.Pending.{pending, process_batch-pending}
use content_storage_server.Storage.Queue.Write.Accept.{Took}
use content_storage_server.Storage.Queue.Worker.{
  Phase, running, stopping, exited, System, Event, receive, timeout, resized, stop_seen, finish,
  with_rest, idle, received, receive_from, receive_case, select_case, stop_case, step_in,
  worker_step, run_worker,
}
use content_storage_server.Storage.Queue.Worker.Eventual.{
  uncovered, names-append, process_batch-queue,
}

module _ {D B : Type 0} (b : Badger D B) (j : Codec) where
  module _ (k : Bytes) (v : Option WriteTask) where
    -- The pending item of `k` without a task to come is `v`.
    abbrev Leaves : System D → Type 0
    Leaves s = uncovered s k ≡ v

    flushed-Leaves :
        (s : System D) (q : Queue D) (ts : List WriteTask)
        → (if names (ts ++ queued q.write_queue) k then none else pending q k) ≡ v
        → Leaves (idle s (process_batch b j q ts))
    flushed-Leaves s q ts h = ground (
      arith,
      h,
      process_batch-pending b j q ts k,
      names-append ts (queued q.write_queue) k,
      ap (λ o. names (queued o) k) (process_batch-queue b j q ts),
    )

    received-Leaves :
        (s : System D) (q : Queue D) (t : WriteTask)
        → (if names (s.batch ++ t ∷ queued q.write_queue) k then none else pending q k) ≡ v
        → Leaves (received b j s q t)
    unfolding received
    received-Leaves s q t h =
        let batch' = s.batch ++ t ∷ [] in
        let assoc = append_assoc s.batch (t ∷ []) (queued q.write_queue) in
        let moved = ap (λ ts. if names ts k then none else pending q k) assoc ∙ h in
        if_induction Leaves (sle q.max_batch_size (length batch')) (flushed-Leaves s q batch' moved)
          moved

    receive_from-Leaves :
        (s : System D) (c : Chan) (ts : List WriteTask)
        → s.queue.write_queue ≡ some c
        → c.buffered ≡ ts
        → Leaves s
        → Leaves (receive_from b j s c ts)
    unfolding receive_from
    receive_from-Leaves s c [] e h left = left
    receive_from-Leaves s c (t ∷ ts) e h left = received-Leaves s (with_rest s.queue c ts) t (
        ap (λ us. if names (s.batch ++ us) k then none else pending s.queue k)
          (sym (ap queued e ∙ h))
        ∙ left)

    receive-Leaves :
        (s : System D) (o : Option Chan)
        → s.queue.write_queue ≡ o
        → Leaves s
        → Leaves (receive_case b j s o)
    unfolding receive_case
    receive-Leaves s none e left = left
    receive-Leaves s (some c) e left = receive_from-Leaves s c c.buffered e refl left

    step_in-Leaves : (p : Phase) (s : System D) (e : Event) → Leaves s → Leaves (step_in b j p s e)
    unfolding step_in select_case stop_case
    step_in-Leaves running s receive left = receive-Leaves s s.queue.write_queue refl left
    step_in-Leaves running s timeout left =
        if_induction Leaves s.timer (flushed-Leaves s s.queue s.batch left) left
    step_in-Leaves running s resized left = left
    step_in-Leaves running s stop_seen left = if_induction Leaves s.queue.stopped left left
    step_in-Leaves running s finish left = left
    step_in-Leaves stopping s finish left = flushed-Leaves s s.queue s.batch left
    step_in-Leaves stopping s receive left = left
    step_in-Leaves stopping s timeout left = left
    step_in-Leaves stopping s resized left = left
    step_in-Leaves stopping s stop_seen left = left
    step_in-Leaves exited s e left = left

    run_worker-Leaves : (s : System D) (es : List Event) → Leaves s → Leaves (run_worker b j s es)
    unfolding run_worker worker_step
    run_worker-Leaves s [] left = left
    run_worker-Leaves s (e ∷ es) left =
        run_worker-Leaves (worker_step b j s e) es (step_in-Leaves s.phase s e left)

  -- Whatever the worker does, the pending items for which no task is still to be written stay the
  -- same: it makes none, and it loses none.
  pub run_worker-uncovered :
      (s : System D) (es : List Event) (k : Bytes)
      → uncovered (run_worker b j s es) k ≡ uncovered s k
  run_worker-uncovered s es k = run_worker-Leaves k (uncovered s k) s es refl

-- A write that is taken covers its own key, and no other.
pub Took-uncovered :
    {D : Type 0} (s : System D) (t : WriteTask) (q : Queue D) (k : Bytes)
    → Took s.queue t q
    → uncovered (record s { queue = q }) k ≡ (if str_eq (task_id t) k then none else uncovered s k)
unfolding names
Took-uncovered s t q k took = ground (
  arith,
  took.now_pending k,
  names-append s.batch (queued q.write_queue) k,
  names-append s.batch (queued s.queue.write_queue) k,
  names-append (queued s.queue.write_queue) (t ∷ []) k,
  ap (λ ts. names ts k) took.appended,
)
