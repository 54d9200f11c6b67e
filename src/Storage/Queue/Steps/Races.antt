-- ===== src/Storage/Queue/Steps/Races.antt =====
-- Two interleavings of pkg/storage/queue.go that do what neither operation does alone: a growing that
-- turns two writes round, and a pending item that is stored after its write.
use content_storage_server.Prelude.{
  ◌≡◌, refl, sym, ap, ◌∙◌, subst, true, false, none, some, List, [], ◌∷◌, ◌++◌, append_assoc,
  append-nil, arith, Bytes, str_eq_iff, if◌then◌else◌,
}
use content_storage_server.Prelude.Int64.{mul, sle}
use content_storage_server.Storage.Badger.{Badger, Codec, IsBadger}
use content_storage_server.Storage.CountedSyncMap.{load-store}
use content_storage_server.Storage.Queue.{
  Queue, Chan, WriteTask, task_id, queued, store_pending_item,
}
use content_storage_server.Storage.Queue.Batch.{names}
use content_storage_server.Storage.Queue.Batch.Pending.{pending}
use content_storage_server.Storage.Queue.Batch.Durable.{
  apply_task, apply_tasks, apply_tasks-append, apply_tasks-one, IsReliable,
}
use content_storage_server.Storage.Queue.Write.{has_room, try_enqueue, new_capacity}
use content_storage_server.Storage.Queue.Worker.{
  System, Event, running, received, worker_step, run_worker,
}
use content_storage_server.Storage.Queue.Worker.Bounds.{IsWorking}
use content_storage_server.Storage.Queue.Worker.Cover.{run_worker-uncovered}
use content_storage_server.Storage.Queue.Worker.Eventual.{outstanding, uncovered, received-eventual}
use content_storage_server.Storage.Queue.Worker.Progress.{receive_all, run_worker-completes}
use content_storage_server.Storage.Queue.Steps.{
  Shared, Step, send, store, swap, move, work, take_old, sent_by, Run, here, next, after_send,
  after_store, after_swap, after_move,
}
use content_storage_server.Storage.Queue.Steps.InOrder.{final, try_enqueue-queued}

module _ {D B : Type 0} (b : Badger D B) (j : Codec) where
  -- A step that sends nothing.
  silent :
      {s t u : Shared D} {ts : List WriteTask}
      → Run b j s ts t
      → (st : Step b j t u) → sent_by b j st ≡ []
      → Run b j s ts u
  silent {s} {u} {ts} r st e =
      subst (λ us. Run b j s us u) (ap (λ us. ts ++ us) e ∙ append-nil ts) (next r st)

  -- The worker's events one by one, with no step of another thread in between.
  run_work :
      (s : Shared D) (es : List Event) {u : Shared D} {ts : List WriteTask}
      → Run b j u ts s
      → s.old ≡ none
      → s.on_old ≡ false
      → Run b j u ts (record s { system = run_worker b j s.system es })
  unfolding run_worker
  run_work s [] r free at_new = r
  run_work s (e ∷ es) r free at_new =
      run_work (record s { system = worker_step b j s.system e }) es
        (silent r (work s e free at_new) refl) free at_new

  pending-uncovered :
      (y : System D) (k : Bytes) (t : WriteTask)
      → uncovered y k ≡ some t
      → pending y.queue k ≡ some t
  pending-uncovered y k t h = ground (arith, h)

  module _ (L : IsBadger b) (r : IsReliable b) where
    -- On a database that takes every write, if the channel of a running queue may grow, has room
    -- for one task when it has grown, and holds `t1` and then `t2`, while the worker waits at it,
    -- then some run sends nothing and leads to a state in which the database will show `t2`
    -- written before `t1`.
    pub growing_may_reorder :
        (s : Shared D) (c : Chan) (t1 t2 : WriteTask) (ts : List WriteTask)
        → s.old ≡ none
        → s.system.phase ≡ running
        → s.system.queue.stopped ≡ false
        → sle
            (mul s.system.queue.initial_queue_size s.system.queue.max_multiplier)
            s.system.queue.max_queue_size
          ≡ false
        → s.system.queue.write_queue ≡ some c
        → c.buffered ≡ t1 ∷ t2 ∷ ts
        → has_room (record {
          buffered = [];
          capacity =
              new_capacity s.system.queue.max_queue_size
                (mul s.system.queue.initial_queue_size s.system.queue.max_multiplier);
        })
          ≡ true
        → (u : Shared D) × Run b j s [] u
          × (final b j u
              ≡ apply_tasks j (b.read s.system.queue.db) (s.system.batch ++ t2 ∷ t1 ∷ ts))
    growing_may_reorder s c t1 t2 ts free ph runs below wq held room =
        let size =
          new_capacity s.system.queue.max_queue_size
            (mul s.system.queue.initial_queue_size s.system.queue.max_multiplier) in
        let s1 = after_swap s true in
        let fresh : Chan = record { buffered = []; capacity = size } in
        let olds : s1.old ≡ some (t1 ∷ t2 ∷ ts) = ap (λ o. some (queued o)) wq ∙ ap some held in
        let s2 = after_move s1 fresh t1 (t2 ∷ ts) in
        let u : Shared D = record s2 {
          system = received b j s2.system s2.system.queue t2;
          old = some ts;
          on_old = false;
        } in
        let m = b.read s.system.queue.db in
        (
          u,
          next
              (next (next here (swap s true free runs below))
                (move s1 fresh t1 (t2 ∷ ts) olds refl room))
              (take_old s2 t2 ts refl ph refl),
          ap (λ v. apply_tasks j v ts) (received-eventual b j L r s2.system s2.system.queue t2)
              ∙ sym (apply_tasks-append j m (s.system.batch ++ t2 ∷ t1 ∷ []) ts)
              ∙ ap (apply_tasks j m) (append_assoc s.system.batch (t2 ∷ t1 ∷ []) ts),
        )

    -- On a database that takes every write, if the channel of a quiet queue with a running worker
    -- has room, there is a run that sends one task and leads to a state in which it is written,
    -- nothing is outstanding and no writer is left, and in which it is pending for ever, whatever
    -- the worker does.
    pub stored_too_late :
        (s : Shared D) (t : WriteTask) (q : Queue D)
        → s.old ≡ none
        → s.on_old ≡ false
        → s.storing ≡ []
        → s.system.phase ≡ running
        → IsWorking s.system
        → outstanding s.system ≡ []
        → try_enqueue s.system.queue t ≡ some q
        → (u : Shared D) × Run b j s (t ∷ []) u
          × (u.storing ≡ [])
          × (outstanding u.system ≡ [])
          × (b.read u.system.queue.db ≡ apply_task j (b.read s.system.queue.db) t)
          × ((es : List Event) → pending (run_worker b j u.system es).queue (task_id t) ≡ some t)
    unfolding store_pending_item names
    stored_too_late s t q free at_new idle ph w empty room =
        let parts = try_enqueue-queued b j s.system.queue q t room in
        let s1 = after_send s t q in
        let es = receive_all (queued q.write_queue) in
        let s2 : Shared D = record s1 { system = run_worker b j s1.system es } in
        let working : IsWorking s1.system = record {
          positive = omega (arith, w.positive, parts.2);
          signed = omega (arith, w.signed, parts.2);
          below = omega (arith, w.below, parts.2);
          timed = w.timed;
        } in
        let done = run_worker-completes b j L r s1.system ph working in
        let u = after_store s2 [] t [] in
        let k = task_id t in
        let m = b.read s.system.queue.db in
        let holds : pending u.system.queue k ≡ some t =
          load-store s2.system.queue.pending_items k k t ∙ ground (arith, str_eq_iff k k) in
        let kept : uncovered u.system k ≡ some t =
          ap (λ ts. if names ts k then none else pending u.system.queue k) done.0 ∙ holds in
        (
          u,
          silent (run_work s1 es (next here (send s t q free room)) free at_new)
              (store s2 [] t [] (ap (λ ts. ts ++ t ∷ []) idle)) refl,
          refl,
          done.0,
          done.1
              ∙ ap (λ (d : D). apply_tasks j (b.read d) (s.system.batch ++ queued q.write_queue))
                  parts.1
              ∙ ap (λ ts. apply_tasks j m (s.system.batch ++ ts)) parts.0
              ∙ ap (apply_tasks j m)
                  (sym (append_assoc s.system.batch (queued s.system.queue.write_queue) (t ∷ [])))
              ∙ ap (λ ts. apply_tasks j m (ts ++ t ∷ [])) empty
              ∙ apply_tasks-one j m t,
          λ es'.
              pending-uncovered (run_worker b j u.system es') k t
                (run_worker-uncovered b j u.system es' k ∙ kept),
        )
