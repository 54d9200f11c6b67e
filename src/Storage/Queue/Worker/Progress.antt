-- ===== src/Storage/Queue/Worker/Progress.antt =====
-- The worker of pkg/storage/queue.go gets everything written: one receive for each queued task, then
-- one timeout of the batch timer.
use content_storage_server.Prelude.{
  ◌≡◌, refl, sym, ap, ◌∙◌, false, not, Option, none, some, List, [], ◌∷◌, ◌++◌, arith, length,
  Bool-cases, inl, inr, is_nil,
}
use content_storage_server.Prelude.Int64.{sle}
use content_storage_server.Storage.Badger.{Badger, Codec, IsBadger}
use content_storage_server.Storage.Queue.{Queue, Chan, WriteTask, queued}
use content_storage_server.Storage.Queue.Batch.Durable.{apply_tasks, apply_tasks-nil, IsReliable}
use content_storage_server.Storage.Queue.Worker.{
  running, System, Event, receive, timeout, with_rest, received, receive_from, receive_case,
  select_case, step_in, worker_step, run_worker,
}
use content_storage_server.Storage.Queue.Worker.Eventual.{
  outstanding, eventual, process_batch-queue, run_worker-eventual,
}
use content_storage_server.Storage.Queue.Worker.Bounds.{IsWorking, step_in-IsWorking}

-- Receive the tasks of the list, then let the timer fire.
abbrev pub receive_all : List WriteTask → List Event
receive_all [] = timeout ∷ []
receive_all (t ∷ ts) = receive ∷ receive_all ts

module _ {D B : Type 0} (b : Badger D B) (j : Codec) where
  pub received-parts :
      (s : System D) (q : Queue D) (t : WriteTask)
      → (queued (received b j s q t).queue.write_queue ≡ queued q.write_queue)
        × ((received b j s q t).phase ≡ s.phase)
  unfolding received
  received-parts s q t =
      let batch' = s.batch ++ t ∷ [] in
      elim (Bool-cases (sle q.max_batch_size (length batch'))) [
        | inl full ↦ rw (full, received) (ap queued (process_batch-queue b j q batch'), refl)
        | inr more ↦ rw (more, received) (refl, refl)
      ]

  receive-parts :
      (s : System D) (o : Option Chan) (t : WriteTask) (ts : List WriteTask)
      → queued o ≡ t ∷ ts
      → (queued (receive_case b j s o).queue.write_queue ≡ ts)
        × ((receive_case b j s o).phase ≡ s.phase)
  unfolding receive_case receive_from
  receive-parts s none t ts e = cc
  receive-parts s (some c) t ts e = from_list c.buffered e
    where
      from_list :
          (xs : List WriteTask)
          → xs ≡ t ∷ ts
          → (queued (receive_from b j s c xs).queue.write_queue ≡ ts)
            × ((receive_from b j s c xs).phase ≡ s.phase)
      from_list [] h = cc
      from_list (x ∷ xs) h =
          let parts = received-parts s (with_rest s.queue c xs) x in (parts.0 ∙ (cc), parts.1)

  nil_batch : (xs : List WriteTask) → false ≡ not (is_nil xs) → xs ≡ []
  nil_batch [] h = refl
  nil_batch (x ∷ xs) h = cc

  drained :
      (s : System D)
      → s.timer ≡ not (is_nil s.batch)
      → queued s.queue.write_queue ≡ []
      → outstanding (select_case b j s timeout) ≡ []
  unfolding select_case
  drained s h q = elim (Bool-cases s.timer) [
    | inl on ↦ ground (arith, on, q, process_batch-queue b j s.queue s.batch)
    | inr off ↦ ground (arith, off, q, nil_batch s.batch (sym off ∙ h))
  ]

  step_running :
      (s : System D) (e : Event) → s.phase ≡ running → worker_step b j s e ≡ select_case b j s e
  unfolding worker_step step_in
  step_running s e p = ap (λ ph. step_in b j ph s e) p

  run_all :
      (ts : List WriteTask) (s : System D)
      → s.phase ≡ running
      → queued s.queue.write_queue ≡ ts
      → IsWorking s
      → outstanding (run_worker b j s (receive_all ts)) ≡ []
  unfolding run_worker
  run_all [] s p q w = ap outstanding (step_running s timeout p) ∙ drained s w.timed q
  run_all (t ∷ ts) s p q w =
      let parts = receive-parts s s.queue.write_queue t ts q in
      ap (λ s'. outstanding (run_worker b j s' (receive_all ts))) (step_running s receive p)
      ∙ (unfold select_case step_in in
          run_all ts (select_case b j s receive) (parts.1 ∙ p) parts.0
            (step_in-IsWorking b j running s receive w))

  -- On a database that takes every write, a running worker whose batch and timer are in order,
  -- and that gets one receive for each queued task and one timeout, has nothing outstanding
  -- afterwards, and the database shows every write, in the order in which they were taken.
  pub run_worker-completes :
      IsBadger b
      → IsReliable b
      → (s : System D) → s.phase ≡ running
      → IsWorking s
      → let s' = run_worker b j s (receive_all (queued s.queue.write_queue)) in
        (outstanding s' ≡ []) × (b.read s'.queue.db ≡ eventual b j s)
  run_worker-completes L r s p w =
      let es = receive_all (queued s.queue.write_queue) in
      let none_left = run_all (queued s.queue.write_queue) s p refl w in
      (
        none_left,
        sym (
              ap (apply_tasks j (b.read (run_worker b j s es).queue.db)) none_left
              ∙ apply_tasks-nil j _)
            ∙ run_worker-eventual b j L r s es,
      )
