-- ===== src/Storage/Queue/Worker/Untouched.antt =====
-- A key for which no task is outstanding is not written by the worker of pkg/storage/queue.go.
use content_storage_server.Prelude.{
  ◌≡◌, refl, sym, ap, ◌∙◌, false, Option, none, some, List, [], ◌∷◌, ◌++◌, append_assoc, arith,
  Bytes, length, Bool-cases, inl, inr, if_induction,
}
use content_storage_server.Prelude.Int64.{sle}
use content_storage_server.Storage.Badger.{Badger, Codec, IsBadger}
use content_storage_server.Storage.Queue.{Queue, Chan, WriteTask, queued}
use content_storage_server.Storage.Queue.Batch.{process_batch, names}
use content_storage_server.Storage.Queue.Batch.Durable.{View, apply_task, apply_tasks, IsReliable}
use content_storage_server.Storage.Queue.Worker.{
  Phase, running, stopping, exited, System, Event, receive, timeout, resized, stop_seen, finish,
  with_rest, idle, received, receive_from, receive_case, select_case, stop_case, step_in,
  worker_step, run_worker,
}
use content_storage_server.Storage.Queue.Worker.Eventual.{
  outstanding, names-append, process_batch-queue, run_worker-eventual,
}

-- No task of the key is to be written.
abbrev pub IsUntouched : {D : Type 0} → Bytes → System D → Type 0
IsUntouched k s = names (outstanding s) k ≡ false

apply_tasks_other :
    (j : Codec) (m : View) (ts : List WriteTask) (k : Bytes)
    → names ts k ≡ false
    → apply_tasks j m ts k ≡ m k
unfolding apply_tasks names
apply_tasks_other j m [] k h = refl
apply_tasks_other j m (t ∷ ts) k h =
    apply_tasks_other j (apply_task j m t) ts k (ground (arith, h)) ∙ (ground (arith, h))

module _ {D B : Type 0} (b : Badger D B) (j : Codec) (k : Bytes) where
  flushed-IsUntouched :
      (s : System D) (q : Queue D) (ts : List WriteTask)
      → names (ts ++ queued q.write_queue) k ≡ false
      → IsUntouched k (idle s (process_batch b j q ts))
  flushed-IsUntouched s q ts h =
      rw (process_batch-queue b j q ts)
        (ground (arith, h, names-append ts (queued q.write_queue) k))

  received-IsUntouched :
      (s : System D) (q : Queue D) (t : WriteTask)
      → names (s.batch ++ t ∷ queued q.write_queue) k ≡ false
      → IsUntouched k (received b j s q t)
  unfolding received
  received-IsUntouched s q t h =
      let batch' = s.batch ++ t ∷ [] in
      let same : names (batch' ++ queued q.write_queue) k ≡ false =
        ap (λ ts. names ts k) (append_assoc s.batch (t ∷ []) (queued q.write_queue)) ∙ h in
      elim (Bool-cases (sle q.max_batch_size (length batch'))) [
        | inl full ↦ rw (full, received) (flushed-IsUntouched s q batch' same)
        | inr more ↦ rw (more, received) same
      ]

  receive_from-IsUntouched :
      (s : System D) (c : Chan) (ts : List WriteTask)
      → s.queue.write_queue ≡ some c
      → c.buffered ≡ ts
      → IsUntouched k s
      → IsUntouched k (receive_from b j s c ts)
  unfolding receive_from
  receive_from-IsUntouched s c [] e f h = h
  receive_from-IsUntouched s c (t ∷ ts) e f h =
      let full : names (s.batch ++ t ∷ ts) k ≡ false =
        ap (λ us. names (s.batch ++ us) k) (sym (ap queued e ∙ f)) ∙ h in
      received-IsUntouched s (with_rest s.queue c ts) t full

  receive-IsUntouched :
      (s : System D) (o : Option Chan)
      → s.queue.write_queue ≡ o
      → IsUntouched k s
      → IsUntouched k (receive_case b j s o)
  unfolding receive_case
  receive-IsUntouched s none e h = h
  receive-IsUntouched s (some c) e h = receive_from-IsUntouched s c c.buffered e refl h

  step_in-IsUntouched :
      (p : Phase) (s : System D) (e : Event) → IsUntouched k s → IsUntouched k (step_in b j p s e)
  unfolding step_in select_case stop_case
  step_in-IsUntouched running s receive h = receive-IsUntouched s s.queue.write_queue refl h
  step_in-IsUntouched running s timeout h =
      if_induction (IsUntouched k) s.timer (flushed-IsUntouched s s.queue s.batch h) h
  step_in-IsUntouched running s resized h = h
  step_in-IsUntouched running s stop_seen h = if_induction (IsUntouched k) s.queue.stopped h h
  step_in-IsUntouched running s finish h = h
  step_in-IsUntouched stopping s finish h = flushed-IsUntouched s s.queue s.batch h
  step_in-IsUntouched stopping s receive h = h
  step_in-IsUntouched stopping s timeout h = h
  step_in-IsUntouched stopping s resized h = h
  step_in-IsUntouched stopping s stop_seen h = h
  step_in-IsUntouched exited s e h = h

  pub run_worker-IsUntouched :
      (s : System D) (es : List Event) → IsUntouched k s → IsUntouched k (run_worker b j s es)
  unfolding run_worker worker_step
  run_worker-IsUntouched s [] h = h
  run_worker-IsUntouched s (e ∷ es) h =
      run_worker-IsUntouched (worker_step b j s e) es (step_in-IsUntouched s.phase s e h)

  -- On a database that takes every write the key reads as before, whatever the worker does.
  pub run_worker-read :
      IsBadger b
      → IsReliable b
      → (s : System D) (es : List Event) → IsUntouched k s
      → b.read (run_worker b j s es).queue.db k ≡ b.read s.queue.db k
  run_worker-read L r s es h =
      let s' = run_worker b j s es in
      sym (
        apply_tasks_other j (b.read s'.queue.db) (outstanding s') k (run_worker-IsUntouched s es h))
      ∙ ap (λ (m : View). m k) (run_worker-eventual b j L r s es)
      ∙ apply_tasks_other j (b.read s.queue.db) (outstanding s) k h
