-- ===== src/Storage/Queue/Steps/InOrder.antt =====
-- Writes interleaved (pkg/storage/queue.go) take effect in the order of their sends, if the worker takes
-- nothing from an old channel once the growing has moved a task.
use content_storage_server.Prelude.{
  ◌≡◌, refl, sym, ap, ◌∙◌, false, Option, none, some, List, [], ◌∷◌, ◌++◌, append_assoc, append-nil,
  arith,
}
use content_storage_server.Storage.Badger.{Badger, Codec, IsBadger}
use content_storage_server.Storage.Queue.{Queue, Chan, WriteTask, queued, store_pending_item}
use content_storage_server.Storage.Queue.Batch.Durable.{
  View, apply_tasks, apply_tasks-append, apply_tasks-nil, IsReliable,
}
use content_storage_server.Storage.Queue.Write.{try_enqueue}
use content_storage_server.Storage.Queue.Worker.{
  System, Event, timeout, resized, stop_seen, running, select_case, step_in, worker_step,
}
use content_storage_server.Storage.Queue.Worker.Eventual.{
  eventual, outstanding, received-eventual, step_in-eventual,
}
use content_storage_server.Storage.Queue.Steps.{
  Shared, Step, send, store, swap, move, grown, work, take_old, wake_timeout, wake_resized,
  wake_stop, sent_by, Run, here, next,
}

abbrev pub in_old : Option (List WriteTask) → List WriteTask
in_old none = []
in_old (some ts) = ts

module _ {D B : Type 0} (b : Badger D B) (j : Codec) where
  -- What reads will show once everything is written, an old channel after the new one.
  abbrev final_of : System D → Option (List WriteTask) → View
  final_of y o = apply_tasks j (eventual b j y) (in_old o)

  abbrev pub final : Shared D → View
  final s = apply_tasks j (eventual b j s.system) (in_old s.old)

  -- The worker takes from an old channel only before the first task is moved.
  abbrev pub InOrder : {s u : Shared D} → Step b j s u → Type 0
  InOrder (take_old s t ts on r e) = queued s.system.queue.write_queue ≡ []
  InOrder (send s t q free room) = Unit {0}
  InOrder (store s ts t us e) = Unit {0}
  InOrder (swap s waits free runs below) = Unit {0}
  InOrder (move s c t ts e new room) = Unit {0}
  InOrder (grown s e) = Unit {0}
  InOrder (work s e free at_new) = Unit {0}
  InOrder (wake_timeout s on r) = Unit {0}
  InOrder (wake_resized s on r) = Unit {0}
  InOrder (wake_stop s on r) = Unit {0}

  abbrev pub AllInOrder :
      {s : Shared D} {ts : List WriteTask} {u : Shared D} → Run b j s ts u → Type 0
  AllInOrder here = Unit {0}
  AllInOrder (next r st) = AllInOrder r × InOrder st

  pub try_enqueue-queued :
      (q q' : Queue D) (t : WriteTask)
      → try_enqueue q t ≡ some q'
      → (queued q'.write_queue ≡ queued q.write_queue ++ t ∷ [])
        × (q'.db ≡ q.db)
        × (q'.max_batch_size ≡ q.max_batch_size)
  unfolding try_enqueue
  try_enqueue-queued q q' t e = by_channel q.write_queue refl
    where
      by_channel :
          (o : Option Chan)
          → q.write_queue ≡ o
          → (queued q'.write_queue ≡ queued q.write_queue ++ t ∷ [])
            × (q'.db ≡ q.db)
            × (q'.max_batch_size ≡ q.max_batch_size)
      by_channel none h = absurd (ground (arith, e, h))
      by_channel (some c) h = ground (arith, e, h)

  final-none :
      (y : System D) (o : Option (List WriteTask)) → o ≡ none → final_of y o ≡ eventual b j y
  final-none y o e = ap (final_of y) e ∙ apply_tasks-nil j (eventual b j y)

  moved :
      (m : View) (xs ys : List WriteTask) (t : WriteTask) (ts : List WriteTask)
      → apply_tasks j (apply_tasks j m (xs ++ (ys ++ t ∷ []))) ts
        ≡ apply_tasks j (apply_tasks j m (xs ++ ys)) (t ∷ ts)
  moved m xs ys t ts =
      ap (λ zs. apply_tasks j (apply_tasks j m zs) ts) (sym (append_assoc xs ys (t ∷ [])))
      ∙ ap (λ v. apply_tasks j v ts) (apply_tasks-append j m (xs ++ ys) (t ∷ []))
      ∙ sym (apply_tasks-append j (apply_tasks j m (xs ++ ys)) (t ∷ []) ts)

  module _ (L : IsBadger b) (r : IsReliable b) where
    wake-final :
        (s : Shared D) (e : Event)
        → final (record s { system = select_case b j s.system e; on_old = false })
          ≡ apply_tasks j (final s) []
    unfolding step_in
    wake-final s e =
        ap (λ v. apply_tasks j v (in_old s.old)) (step_in-eventual b j L r running s.system e)
        ∙ sym (apply_tasks-nil j (final s))

    pub step-final :
        {s u : Shared D} (st : Step b j s u)
        → InOrder st
        → final u ≡ apply_tasks j (final s) (sent_by b j st)
    unfolding store_pending_item
    step-final (send s t q free room) ok =
        let parts = try_enqueue-queued s.system.queue q t room in
        let batch = s.system.batch in
        let q0 = s.system.queue in
        final-none (record s.system { queue = q }) s.old free
        ∙ ap (λ (d : D). apply_tasks j (b.read d) (batch ++ queued q.write_queue)) parts.1
        ∙ ap (λ ts. apply_tasks j (b.read q0.db) (batch ++ ts)) parts.0
        ∙ ap (apply_tasks j (b.read q0.db))
            (sym (append_assoc batch (queued q0.write_queue) (t ∷ [])))
        ∙ apply_tasks-append j (b.read q0.db) (outstanding s.system) (t ∷ [])
        ∙ ap (λ v. apply_tasks j v (t ∷ [])) (sym (final-none s.system s.old free))
    step-final (store s ts t us e) ok = sym (apply_tasks-nil j (final s))
    step-final (swap s waits free runs below) ok =
        let m = b.read s.system.queue.db in
        let ts = queued s.system.queue.write_queue in
        ap (λ xs. apply_tasks j (apply_tasks j m xs) ts) (append-nil s.system.batch)
        ∙ sym (apply_tasks-append j m s.system.batch ts)
        ∙ sym (final-none s.system s.old free)
        ∙ sym (apply_tasks-nil j (final s))
    step-final (move s c t ts e new room) ok =
        let m = b.read s.system.queue.db in
        moved m s.system.batch c.buffered t ts
        ∙ ap (λ o. apply_tasks j (apply_tasks j m (s.system.batch ++ queued o)) (t ∷ ts)) (sym new)
        ∙ ap (final_of s.system) (sym e)
        ∙ sym (apply_tasks-nil j (final s))
    step-final (grown s e) ok = ap (final_of s.system) (sym e) ∙ sym (apply_tasks-nil j (final s))
    step-final (work s e free at_new) ok =
        final-none (worker_step b j s.system e) s.old free
        ∙ unfold worker_step in
          (step_in-eventual b j L r s.system.phase s.system e)
          ∙ sym (final-none s.system s.old free)
          ∙ sym (apply_tasks-nil j (final s))
    step-final (take_old s t ts on ru e) ok =
        let m = b.read s.system.queue.db in
        let xs = s.system.batch in
        ap (λ v. apply_tasks j v ts)
          (received-eventual b j L r s.system s.system.queue t
            ∙ ap (λ zs. apply_tasks j m (xs ++ t ∷ zs)) ok)
        ∙ moved m xs [] t ts
        ∙ ap (λ zs. apply_tasks j (apply_tasks j m (xs ++ zs)) (t ∷ ts)) (sym ok)
        ∙ ap (final_of s.system) (sym e)
        ∙ sym (apply_tasks-nil j (final s))
    step-final (wake_timeout s on ru) ok = wake-final s timeout
    step-final (wake_resized s on ru) ok = wake-final s resized
    step-final (wake_stop s on ru) ok = wake-final s stop_seen

    -- On a database that takes every write, in any interleaving of writers, growings of the
    -- channel and the worker in which the worker takes a task from an old channel only before one
    -- of its tasks was moved: what the database shows once everything is written is what it would
    -- have shown before, changed by the writes in the order in which they were sent.
    pub run_in_order :
        {s : Shared D} {ts : List WriteTask} {u : Shared D} (run : Run b j s ts u)
        → AllInOrder run
        → final u ≡ apply_tasks j (final s) ts
    run_in_order {s} here ok = sym (apply_tasks-nil j (final s))
    run_in_order {s} (next {ts} run st) (before, ok) =
        step-final st ok
        ∙ ap (λ v. apply_tasks j v (sent_by b j st)) (run_in_order run before)
        ∙ sym (apply_tasks-append j (final s) ts (sent_by b j st))
