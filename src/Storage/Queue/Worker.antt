-- ===== src/Storage/Queue/Worker.antt =====
-- The worker goroutine of pkg/storage/queue.go as a state machine, and `stopWorker`, which ends it.
-- An event is one ready case of its select, or the end of its loop; one that is not ready changes
-- nothing.
pub mod Untouched
pub mod Eventual
pub mod Bounds
pub mod Cover
pub mod Progress
pub mod Stable
pub mod Ends
use content_storage_server.Prelude.{
  ℕ, ◌≡◌, Bool, true, false, ◌||◌, Option, none, some, List, [], ◌∷◌, ◌++◌, ◌==◌, length,
  if◌then◌else◌,
}
use content_storage_server.Prelude.Int64.{sle}
use content_storage_server.Storage.Badger.{Badger, Codec}
use content_storage_server.Storage.Queue.{Queue, Chan, WriteTask}
use content_storage_server.Storage.Queue.Batch.{process_batch}

-- `exited` is after the loop; `workerStatePausingForFlush` is never entered.
pub data Phase : Type 0 where
  running stopping exited : Phase

-- The queue with the local variables of the worker; `timer` is whether the batch timer runs.
pub record System (D : Type 0) : Type 0 where
  pub queue : Queue D
  pub batch : List WriteTask
  pub timer : Bool
  pub phase : Phase

pub data Event : Type 0 where
  receive timeout resized stop_seen finish : Event

module _ {D : Type 0} where
  -- The channel without its first task.
  abbrev pub with_rest : Queue D → Chan → List WriteTask → Queue D
  with_rest q c ts = record q { write_queue = some (record c { buffered = ts }) }

  abbrev pub idle : System D → Queue D → System D
  idle s q = record s { queue = q; batch = []; timer = false }

module _ {D B : Type 0} (b : Badger D B) (j : Codec) where
  -- case task := <-queue: the batch is processed once it is full.
  unfoldable pub received : System D → Queue D → WriteTask → System D
  unfolding process_batch
  received s q t =
      let batch' = s.batch ++ t ∷ [] in
      if sle q.max_batch_size (length batch')
      then idle s (process_batch b j q batch')
      else record s { queue = q; batch = batch'; timer = (length batch' == 1) || s.timer }

  unfoldable pub receive_from : System D → Chan → List WriteTask → System D
  unfolding received
  receive_from s c [] = s
  receive_from s c (t ∷ ts) = received s (with_rest s.queue c ts) t

  unfoldable pub receive_case : System D → Option Chan → System D
  unfolding receive_from
  receive_case s none = s
  receive_case s (some c) = receive_from s c c.buffered

  -- One pass of the loop in the running state.
  unfoldable pub select_case : System D → Event → System D
  unfolding receive_case process_batch
  select_case s receive = receive_case s s.queue.write_queue
  select_case s timeout = if s.timer then idle s (process_batch b j s.queue s.batch) else s
  select_case s resized = record s { queue = record s.queue { resize_pending = false } }
  select_case s stop_seen = if s.queue.stopped then record s { phase = stopping } else s
  select_case s finish = s

  -- The stopping state: what is left of the batch is processed, and the loop ends.
  unfoldable pub stop_case : System D → Event → System D
  unfolding process_batch
  stop_case s finish = record (idle s (process_batch b j s.queue s.batch)) { phase = exited }
  stop_case s _ = s

  unfoldable pub step_in : Phase → System D → Event → System D
  unfolding select_case stop_case
  step_in running s e = select_case s e
  step_in stopping s e = stop_case s e
  step_in exited s e = s

  unfoldable pub worker_step : System D → Event → System D
  unfolding step_in
  worker_step s e = step_in s.phase s e

  unfoldable pub run_worker : System D → List Event → System D
  unfolding worker_step
  run_worker s [] = s
  run_worker s (e ∷ es) = run_worker (worker_step s e) es

  -- `stopWorker`: close the channel and wait; `es` is what the worker still does before it sees that.
  unfoldable pub stop_worker : List Event → System D → System D
  unfolding run_worker
  stop_worker es s =
      if s.queue.stopped
      then s
      else run_worker (record s { queue = record s.queue { stopped = true } })
          (es ++ stop_seen ∷ finish ∷ [])
