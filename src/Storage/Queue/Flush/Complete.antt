-- ===== src/Storage/Queue/Flush/Complete.antt =====
-- `simpleFlush` of pkg/storage/queue.go: a graceful flush writes everything that is outstanding, or
-- does nothing at all.
use content_storage_server.Prelude.{
  ◌≡◌, ◌<◌, refl, if◌then◌else◌, sym, ap, ◌∙◌, true, false, none, some, List, [], ◌++◌, arith,
  Bytes, length,
}
use content_storage_server.Prelude.Assoc
use content_storage_server.Storage.Badger.{Badger, Codec, IsBadger}
use content_storage_server.Storage.CountedSyncMap
use content_storage_server.Storage.CountedSyncMap.{IsCounted}
use content_storage_server.Storage.Queue.{Queue, queued, get_pending_content_count}
use content_storage_server.Storage.Queue.Batch.{names}
use content_storage_server.Storage.Queue.Batch.Durable.{apply_tasks, IsReliable}
use content_storage_server.Storage.Queue.Batch.Pending.{pending, IsQueueCounted}
use content_storage_server.Storage.Queue.Worker.{System, Event, stop_worker}
use content_storage_server.Storage.Queue.Worker.Eventual.{outstanding, eventual, uncovered}
use content_storage_server.Storage.Queue.Worker.Ends.{
  IsSettled, stop_worker-ends, stop_worker-eventual, stop_worker-Stable, stop_worker-uncovered,
}
use content_storage_server.Storage.Queue.Worker.Stable.{counted_Stable, size_Stable}
use content_storage_server.Storage.Queue.Flush.{
  drain_queued_tasks, flush_result, after_drain, simple_flush,
}
use content_storage_server.Storage.Queue.Flush.Forced.{id_or, IsKeyed, forced, force_process-Forced}
use content_storage_server.Storage.Queue.Flush.Drain.{
  Wrote, drain_queued_tasks-Wrote, drain_queued_tasks-empties, drain_queued_tasks-Stable,
}

module _ {D B : Type 0} (b : Badger D B) (j : Codec) where
  -- With nothing pending the flush returns at once: what is queued stays queued, and the worker runs
  -- on as it did.
  pub simple_flush-skips :
      (s : System D) (es : List Event)
      → CountedSyncMap.is_empty s.queue.pending_items ≡ true
      → simple_flush b j es s ≡ some (s, none)
  unfolding simple_flush
  simple_flush-skips s es h = rw (h, simple_flush)

  -- What is pending, under its own identifier, once the worker has stopped and the channel is empty.
  IsKeyed-drained :
      (s : System D) (k : Bytes) → id_or k (pending s.queue k) ≡ k → id_or k (uncovered s k) ≡ k
  IsKeyed-drained s k h = ground (arith, h)

  -- The check after the forced processing finds nothing.
  flush_result-none :
      (q : Queue D) → IsQueueCounted q → ((k : Bytes) → pending q k ≡ none) → flush_result q ≡ none
  unfolding flush_result get_pending_content_count CountedSyncMap.load
  flush_result-none q c h =
      ground (arith, c.counted, ap length (Assoc.nil_of_get q.pending_items.items h))

  -- On a database that takes every write, with a positive batch size, a flush of a queue that
  -- runs returns, without an error, if something is pending, each item is pending under its own
  -- identifier, the count of the pending items is right and a worker that has exited holds
  -- nothing. Then every write that was outstanding is in the database, in order, whatever the
  -- worker still did meanwhile; every item that was pending with no outstanding write is written
  -- last; and nothing is queued, in the worker's batch, or pending any more.
  pub simple_flush-completes :
      IsBadger b
      → IsReliable b
      → (s : System D) (es : List Event) → s.queue.stopped ≡ false
      → CountedSyncMap.is_empty s.queue.pending_items ≡ false
      → 0 < s.queue.max_batch_size
      → IsSettled s
      → IsKeyed s.queue
      → IsQueueCounted s.queue
      → (s' : System D) × (simple_flush b j es s ≡ some (s', none))
        × ((k : Bytes) → b.read s'.queue.db k ≡ forced j (eventual b j s) (uncovered s k) k)
        × (outstanding s' ≡ [])
        × ((k : Bytes) → pending s'.queue k ≡ none)
  unfolding simple_flush after_drain
  simple_flush-completes L r s es run some_pending size settled keyed counted =
      let c2 =
        drain_queued_tasks-Stable b j (counted_Stable b j) s1.queue
          (stop_worker-Stable b j (counted_Stable b j) s es run counted) in
      let n2 =
        drain_queued_tasks-Stable b j (size_Stable b j s.queue.max_batch_size) s1.queue
          (stop_worker-Stable b j (size_Stable b j s.queue.max_batch_size) s es run refl) in
      let keyed2 = λ (k : Bytes). ap (id_or k) (left k) ∙ IsKeyed-drained s k (keyed k) in
      let (q3, done, f) = force_process-Forced b j L r q2 (omega (arith, n2, size)) c2 keyed2 in
      (
        record s1 { queue = q3 },
        rw (some_pending, simple_flush)
            (rw (done, after_drain) (rw (flush_result-none q3 f.counted f.gone))),
        (λ k.
            f.shows k
            ∙ ap (λ o. forced j (b.read q2.db) o k) (left k)
            ∙ ap (λ m. forced j m (uncovered s k) k) shows2),
        rw (ended, f.same_queue, drain_queued_tasks-empties b j s1.queue),
        f.gone,
      )
    where
      s1 : System D
      s1 = stop_worker b j es s

      q2 : Queue D
      q2 = (drain_queued_tasks b j s1.queue).0

      ended : s1.batch ≡ []
      ended = stop_worker-ends b j s es run settled

      wrote : Wrote b j (queued s1.queue.write_queue) s1.queue q2
      wrote = drain_queued_tasks-Wrote b j L r s1.queue

      shows2 : b.read q2.db ≡ eventual b j s
      shows2 =
          wrote.shows
          ∙ ap (λ ts. apply_tasks j (b.read s1.queue.db) (ts ++ queued s1.queue.write_queue))
              (sym ended)
          ∙ stop_worker-eventual b j L r s es run

      left : (k : Bytes) → pending q2 k ≡ uncovered s k
      left k =
          wrote.pends k
          ∙ ap
              (λ ts.
                if names (ts ++ queued s1.queue.write_queue) k then none else pending s1.queue k)
              (sym ended)
          ∙ stop_worker-uncovered b j s es k run
