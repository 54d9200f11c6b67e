-- ===== src/Storage/Queue/Flush.antt =====
-- Shutdown of the write queue (pkg/storage/queue.go): `drainQueuedTasksNonBlocking`,
-- `forceProcessStuckTasks`, `simpleFlush`, `Stop`, `EmergencyStop` and the serialization for recovery.
pub mod Drain
pub mod Forced
pub mod Complete
use content_storage_server.Prelude.{
  ℕ, zero, suc, Bool, true, false, Option, none, some, List, [], ◌∷◌, ◌++◌, Bytes, length, take,
  drop, if◌then◌else◌,
}
use content_storage_server.Prelude.Int64.{Int64, slt, sle}
use content_storage_server.Prelude.Assoc
use content_storage_server.Models.Content.{Content}
use content_storage_server.Storage.Badger.{Badger, Codec}
use content_storage_server.Storage.Error.{Error, flush_incomplete}
use content_storage_server.Storage.CountedSyncMap
use content_storage_server.Storage.Notify.{check_and_notify_flush_completion}
use content_storage_server.Storage.Queue.{Queue, Chan, WriteTask, queued, get_pending_content_count}
use content_storage_server.Storage.Queue.Batch.{process_batch}
use content_storage_server.Storage.Queue.Worker.{System, Event, stop_worker}

-- The queue with `ts` left in its channel.
abbrev pub with_queued : {D : Type 0} → Queue D → List WriteTask → Queue D
with_queued q ts = record q {
  write_queue = elim q.write_queue [ none ↦ none | some c ↦ some (record c { buffered = ts }) ];
}

-- A task as it is serialized for recovery.
pub record SerializableTask : Type 0 where
  pub content : Content
  pub marshaled_data : Option Bytes

unfoldable pub serializable : List WriteTask → List SerializableTask
serializable [] = []
serializable (t ∷ ts) =
    record { content = t.content; marshaled_data = t.marshaled_data } ∷ serializable ts

module _ {D : Type 0} where
  -- The notification after the loop.
  unfoldable pub notify_forced : Queue D → Queue D
  notify_forced q = record q {
    notifications = check_and_notify_flush_completion q.notifications q.pending_items;
  }

  -- The error if anything is still pending.
  unfoldable pub flush_result : Queue D → Option Error
  unfolding get_pending_content_count
  flush_result q =
      let final_pending = get_pending_content_count q in
      if slt 0 final_pending then some (flush_incomplete final_pending) else none

  unfoldable pub after_drain : System D → Option (Queue D) → Option (System D × Option Error)
  unfolding flush_result
  after_drain s none = none
  after_drain s (some q) = some (record s { queue = q }, flush_result q)

module _ {D B : Type 0} (b : Badger D B) (j : Codec) where
  -- The receive loop over the channel's tasks; a batch is processed once it is full, and the last
  -- one at the end.
  unfoldable pub drain_from : List WriteTask → List WriteTask → Queue D → Queue D
  unfolding process_batch
  drain_from [] batch q = process_batch b j q batch
  drain_from (t ∷ ts) batch q =
      let batch' = batch ++ t ∷ [] in
      let q' = with_queued q ts in
      let full = drain_from ts [] (process_batch b j q' batch') in
      let more = drain_from ts batch' q' in
      if sle q.max_batch_size (length batch') then full else more

  -- The queue and the number of tasks received.
  unfoldable pub drain_queued_tasks : Queue D → Queue D × ℕ
  unfolding drain_from
  drain_queued_tasks q = (drain_from (queued q.write_queue) [] q, length (queued q.write_queue))

  -- The loop over `stuckTasks`, with the tasks from index i on. It takes as many rounds as there are
  -- batches, and for ever if the batch size is zero: none stands for the fuel running out.
  unfoldable pub force_from : ℕ → List WriteTask → Queue D → Option (Queue D)
  unfolding process_batch
  force_from zero ts q = none
  force_from (suc fuel) [] q = some q
  force_from (suc fuel) (t ∷ ts) q =
      let n = q.max_batch_size in
      let rest = force_from fuel (drop n (t ∷ ts)) (process_batch b j q (take n (t ∷ ts))) in rest

  unfoldable pub force_stuck : List WriteTask → Queue D → Option (Queue D)
  unfolding force_from notify_forced
  force_stuck [] q = some q
  force_stuck (t ∷ ts) q = elim (force_from (suc (length (t ∷ ts))) (t ∷ ts) q) [
    | none ↦ none
    | some q' ↦ some (notify_forced q')
  ]

  unfoldable pub force_process_stuck_tasks : Queue D → Option (Queue D)
  unfolding force_stuck CountedSyncMap.range
  force_process_stuck_tasks q = force_stuck (Assoc.values (CountedSyncMap.range q.pending_items)) q

  -- `es` is what the worker does between the stop signal and its end.
  unfoldable pub simple_flush : List Event → System D → Option (System D × Option Error)
  unfolding stop_worker drain_queued_tasks force_process_stuck_tasks after_drain
      CountedSyncMap.is_empty
  simple_flush es s =
      if CountedSyncMap.is_empty s.queue.pending_items
      then some (s, none)
      else (let s' = stop_worker b j es s in
          after_drain s' (force_process_stuck_tasks (drain_queued_tasks s'.queue).0))

module _ {D : Type 0} where
  -- Closes the stop channel; what is queued and pending stays as it is.
  unfoldable pub emergency_stop : Queue D → Queue D
  emergency_stop q = record q { stopped = true }

  unfoldable pub close_queue : Queue D → Queue D
  close_queue q = record q { write_queue = none }

  -- The tasks of which the JSON and its checksum are made.
  unfoldable pub serialize_pending_tasks : Queue D → List SerializableTask
  unfolding serializable CountedSyncMap.range
  serialize_pending_tasks q = serializable (Assoc.values (CountedSyncMap.range q.pending_items))

  unfoldable pub serialize_write_queue : Queue D → Queue D × List SerializableTask
  unfolding serializable
  serialize_write_queue q = (with_queued q [], serializable (queued q.write_queue))

module _ {D B : Type 0} (b : Badger D B) (j : Codec) where
  -- `Stop`: what is still in the channel is not written. A second call changes nothing.
  unfoldable pub stop : List Event → System D → System D
  unfolding stop_worker close_queue
  stop es s = let s' = stop_worker b j es s in record s' { queue = close_queue s'.queue }
