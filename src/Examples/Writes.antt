-- ===== src/Examples/Writes.antt =====
-- Writes that go through the queue: two tasks in a full channel, their batch, the worker and a flush.
use content_storage_server.Prelude.{
  ◌≡◌, refl, true, false, none, some, List, [], ◌∷◌, arith, Bytes, if◌then◌else◌, leb,
}
use content_storage_server.Prelude.Assoc.{Assoc}
use content_storage_server.Storage.CountedSyncMap
use content_storage_server.Storage.Error.{shutting_down, at_maximum_capacity}
use content_storage_server.Storage.Queue.{Queue, WriteTask, queued}
use content_storage_server.Storage.Queue.Batch.{names, process_batch}
use content_storage_server.Storage.Queue.Batch.Pending.{pending, process_batch-pending}
use content_storage_server.Storage.Queue.Batch.Durable.{apply_tasks, process_batch-durable}
use content_storage_server.Storage.Queue.Batch.Answers.{has_message, process_batch-answers}
use content_storage_server.Storage.Queue.Write.{double_queue_capacity, queue_write}
use content_storage_server.Storage.Queue.Write.Capacity.{
  IsSized, limit, grown_queue, double_queue_capacity_lem,
}
use content_storage_server.Storage.Queue.Write.Accept.{Took, async_task, queue_write-accepts}
use content_storage_server.Storage.Queue.Worker.{System, run_worker, receive}
use content_storage_server.Storage.Queue.Worker.Eventual.{outstanding, eventual, uncovered}
use content_storage_server.Storage.Queue.Worker.Bounds.{IsWorking}
use content_storage_server.Storage.Queue.Worker.Progress.{receive_all, run_worker-completes}
use content_storage_server.Storage.Queue.Worker.Ends.{IsSettled}
use content_storage_server.Storage.Queue.Flush.{simple_flush}
use content_storage_server.Storage.Queue.Flush.Forced.{forced}
use content_storage_server.Storage.Queue.Flush.Complete.{simple_flush-completes}
use content_storage_server.Examples.{
  memory, memory-IsBadger, memory-IsReliable, content_of, plain, full_queue-IsKeyed, a_key, b_key,
  a_task, b_task, two_pending, two_pending-IsCounted, full_queue, start,
}

abbrev both : List WriteTask
both = a_task ∷ b_task ∷ []

process_batch-pending_example :
    pending (process_batch memory plain full_queue both) a_key
    ≡ (if names both a_key then none else pending full_queue a_key)
process_batch-pending_example = process_batch-pending memory plain full_queue both a_key

process_batch-durable_example :
    memory.read (process_batch memory plain full_queue both).db b_key
    ≡ apply_tasks plain (memory.read full_queue.db) both b_key
process_batch-durable_example =
    process_batch-durable memory plain memory-IsBadger full_queue both
      (λ v e. refl, (λ v e. refl, tt)) refl b_key

process_batch-answers_example :
    has_message ((process_batch memory plain full_queue both).results 7) ≡ true
process_batch-answers_example = process_batch-answers memory plain full_queue both 7 refl

full_queue-IsSized : IsSized full_queue
full_queue-IsSized = record {
  fits = (refl, omega arith);
  grown = omega arith;
  size_small = omega arith;
  limit_small = omega arith;
}

double_queue_capacity_example :
    double_queue_capacity full_queue
    ≡ some (
        if full_queue.stopped
        then (full_queue, some shutting_down)
        else if leb (limit full_queue) full_queue.max_queue_size
        then (full_queue, some (at_maximum_capacity (limit full_queue)))
        else (grown_queue full_queue, none))
double_queue_capacity_example = double_queue_capacity_lem full_queue full_queue-IsSized

queue_write-accepts_example :
    (q' : Queue (Assoc Bytes)) × (queue_write plain full_queue (content_of a_key) ≡ some (q', none))
    × Took full_queue (async_task (content_of a_key) a_key) q'
queue_write-accepts_example =
    queue_write-accepts plain full_queue (content_of a_key) a_key refl full_queue-IsSized refl

start-IsWorking : IsWorking start
start-IsWorking = record {
  positive = omega arith;
  signed = omega arith;
  below = omega arith;
  timed = refl;
}

run_worker-completes_example :
    let s' = run_worker memory plain start (receive_all (queued start.queue.write_queue)) in
    (outstanding s' ≡ []) × (memory.read s'.queue.db ≡ eventual memory plain start)
run_worker-completes_example =
    run_worker-completes memory plain memory-IsBadger memory-IsReliable start refl start-IsWorking

start-IsSettled : IsSettled start
start-IsSettled = record { empty = λ h. refl }

some_pending : CountedSyncMap.is_empty two_pending ≡ false
unfolding CountedSyncMap.is_empty
some_pending = refl

simple_flush-completes_example :
    (s' : System (Assoc Bytes)) × (simple_flush memory plain (receive ∷ []) start ≡ some (s', none))
    × ((k : Bytes)
        → memory.read s'.queue.db k
          ≡ forced plain (eventual memory plain start) (uncovered start k) k)
    × (outstanding s' ≡ [])
    × ((k : Bytes) → pending s'.queue k ≡ none)
simple_flush-completes_example =
    simple_flush-completes memory plain memory-IsBadger memory-IsReliable start (receive ∷ []) refl
      some_pending (omega arith) start-IsSettled full_queue-IsKeyed two_pending-IsCounted
