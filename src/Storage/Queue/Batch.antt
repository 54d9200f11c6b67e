-- ===== src/Storage/Queue/Batch.antt =====
-- `processBatch` and `handleTaskError` of pkg/storage/queue.go: one batch of tasks is written, and
-- whoever waits for one of them is told.
pub mod Pending
pub mod Durable
pub mod Answers
pub mod Frame
use content_storage_server.Prelude.{
  ℕ, ◌+◌, ◌≡◌, Bool, true, false, ◌||◌, Option, none, some, List, [], ◌∷◌, Bytes, length, str_eq,
  if◌then◌else◌,
}
use content_storage_server.Prelude.Int64.{add}
use content_storage_server.Prelude.Slots.{Slots, try_send}
use content_storage_server.Storage.Badger.{Badger, Codec}
use content_storage_server.Storage.Error.{
  DbError, Error, marshal_content, add_to_batch, flush_batch,
}
use content_storage_server.Storage.CountedSyncMap
use content_storage_server.Storage.Notify.{notify_completion, check_and_notify_flush_completion}
use content_storage_server.Storage.Queue.{Queue, WriteTask, task_id}

-- A non-blocking send to the task's result channel, if it has one; `none` stands for a nil error.
unfoldable pub answer : Slots (Option Error) → WriteTask → Option Error → Slots (Option Error)
answer s t r = elim t.result_chan [ none ↦ s | some c ↦ try_send s c r ]

-- The keys of `processedIDs`, each once.
unfoldable pub names : List WriteTask → Bytes → Bool
names [] k = false
names (t ∷ ts) k = str_eq (task_id t) k || names ts k

unfoldable pub unique_ids : List WriteTask → List Bytes
unfolding names
unique_ids [] = []
unique_ids (t ∷ ts) =
    let rest = unique_ids ts in if names ts (task_id t) then rest else task_id t ∷ rest

unfoldable pub answer_all : Slots (Option Error) → List WriteTask → Slots (Option Error)
unfolding answer
answer_all s [] = s
answer_all s (t ∷ ts) = answer_all (answer s t none) ts

module _ {D : Type 0} where
  -- The custom error handler is the default one, which does nothing (badger_init.go).
  unfoldable pub handle_task_error : Queue D → WriteTask → Error → Queue D
  unfolding answer
  handle_task_error q t e =
      let pending = (CountedSyncMap.load_and_delete q.pending_items (task_id t)).0 in
      record q {
        metrics = record q.metrics { total_errors = add q.metrics.total_errors 1 };
        pending_items = pending;
        notifications =
            check_and_notify_flush_completion (notify_completion q.notifications (task_id t))
              pending;
        results = answer q.results t (some e);
      }

  unfoldable pub fail_all : Queue D → List WriteTask → Queue D
  unfolding handle_task_error
  fail_all q [] = q
  fail_all q (t ∷ ts) = fail_all (handle_task_error q t flush_batch) ts

  unfoldable pub complete_id : Queue D → Bytes → Queue D
  complete_id q k = record q {
    pending_items = (CountedSyncMap.load_and_delete q.pending_items k).0;
    notifications = notify_completion q.notifications k;
  }

  unfoldable pub complete_ids : Queue D → List Bytes → Queue D
  unfolding complete_id
  complete_ids q [] = q
  complete_ids q (k ∷ ks) = complete_ids (complete_id q k) ks

  unfoldable pub complete : Queue D → List WriteTask → Queue D
  unfolding answer_all unique_ids complete_ids
  complete q ts =
      let q' = complete_ids (record q { results = answer_all q.results ts }) (unique_ids ts) in
      record q' {
        metrics = record q'.metrics {
          total_processed = add q'.metrics.total_processed (length ts);
        };
        notifications = check_and_notify_flush_completion q'.notifications q'.pending_items;
      }

  -- What follows `writeBatch.Set`.
  unfoldable pub after_set : {B : Type 0} → Queue D → WriteTask → B × Option DbError → Queue D × B
  unfolding handle_task_error
  after_set q t (w, none) = (q, w)
  after_set q t (w, some e) = (handle_task_error q t add_to_batch, w)

  -- What follows `writeBatch.Flush()`.
  unfoldable pub after_flush : Queue D → List WriteTask → D × Option DbError → Queue D
  unfolding complete fail_all
  after_flush q ts (d, none) = complete (record q { db = d }) ts
  after_flush q ts (d, some e) = fail_all (record q { db = d }) ts

-- The marshaled data if there is some; otherwise the content is marshaled now.
unfoldable pub encoded : Codec → WriteTask → Option Bytes
encoded j t = elim t.marshaled_data [ none ↦ j.marshal t.content | some v ↦ some v ]

module _ {D B : Type 0} (b : Badger D B) (j : Codec) where
  unfoldable pub add_task : Queue D → B → WriteTask → Queue D × B
  unfolding encoded after_set
  add_task q w t = elim (encoded j t) [
    | none ↦ (handle_task_error q t marshal_content, w)
    | some v ↦ after_set q t (b.set w (task_id t) v)
  ]

  unfoldable pub add_tasks : Queue D → B → List WriteTask → Queue D × B
  unfolding add_task
  add_tasks q w [] = (q, w)
  add_tasks q w (t ∷ ts) = let (q', w') = add_task q w t in add_tasks q' w' ts

  unfoldable pub process_batch : Queue D → List WriteTask → Queue D
  unfolding add_tasks after_flush
  process_batch q [] = q
  process_batch q (t ∷ ts) =
      let (q', w) = add_tasks q (b.new_write_batch q.db) (t ∷ ts) in
      after_flush q' (t ∷ ts) (b.flush q'.db w)
