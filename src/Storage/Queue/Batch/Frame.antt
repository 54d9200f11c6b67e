-- ===== src/Storage/Queue/Batch/Frame.antt =====
-- What no batch touches: the channel, the sizes and the stop flag (pkg/storage/queue.go).
use content_storage_server.Prelude.{
  ◌≡◌, refl, ◌∙◌, Bool, Option, none, some, List, [], ◌∷◌, Bytes, Option-cases, inl, inr,
}
use content_storage_server.Prelude.Int64.{Int64}
use content_storage_server.Storage.Badger.{Badger, Codec}
use content_storage_server.Storage.Error.{DbError, flush_batch}
use content_storage_server.Storage.Queue.{Queue, Chan, WriteTask, task_id}
use content_storage_server.Storage.Queue.Batch.{
  handle_task_error, fail_all, complete_id, complete_ids, complete, after_set, after_flush,
  add_task, add_tasks, process_batch, encoded, unique_ids, answer_all,
}

pub record Frame : Type 0 where
  pub write_queue : Option Chan
  pub max_queue_size : Int64
  pub max_batch_size : Int64
  pub stopped : Bool
  pub resize_pending : Bool
  pub initial_queue_size : Int64
  pub max_multiplier : Int64

module _ {D : Type 0} where
  abbrev pub frame : Queue D → Frame
  frame q = record {
    write_queue = q.write_queue;
    max_queue_size = q.max_queue_size;
    max_batch_size = q.max_batch_size;
    stopped = q.stopped;
    resize_pending = q.resize_pending;
    initial_queue_size = q.initial_queue_size;
    max_multiplier = q.max_multiplier;
  }

  complete_ids-frame : (is : List Bytes) (q : Queue D) → frame (complete_ids q is) ≡ frame q
  unfolding complete_ids
  complete_ids-frame [] q = refl
  complete_ids-frame (i ∷ is) q = complete_ids-frame is (complete_id q i)

  fail_all-frame : (ts : List WriteTask) (q : Queue D) → frame (fail_all q ts) ≡ frame q
  unfolding fail_all
  fail_all-frame [] q = refl
  fail_all-frame (t ∷ ts) q = fail_all-frame ts (handle_task_error q t flush_batch)

  after_flush-frame :
      (ts : List WriteTask) (q : Queue D) (r : D × Option DbError)
      → frame (after_flush q ts r) ≡ frame q
  unfolding after_flush complete
  after_flush-frame ts q (d, none) =
      complete_ids-frame (unique_ids ts) (record q { db = d; results = answer_all q.results ts })
  after_flush-frame ts q (d, some e) = fail_all-frame ts (record q { db = d })

  after_set-frame :
      {B : Type 0} (q : Queue D) (t : WriteTask) (r : B × Option DbError)
      → frame (after_set q t r).0 ≡ frame q
  unfolding after_set
  after_set-frame q t (w, none) = refl
  after_set-frame q t (w, some e) = refl

module _ {D B : Type 0} (b : Badger D B) (j : Codec) where
  add_task-frame : (q : Queue D) (w : B) (t : WriteTask) → frame (add_task b j q w t).0 ≡ frame q
  unfolding add_task
  add_task-frame q w t = elim (Option-cases (encoded j t)) [
    | inl e ↦ rw (e, add_task) refl
    | inr (v, e) ↦ rw (e, add_task) (after_set-frame q t (b.set w (task_id t) v))
  ]

  add_tasks-frame :
      (ts : List WriteTask) (q : Queue D) (w : B) → frame (add_tasks b j q w ts).0 ≡ frame q
  unfolding add_tasks
  add_tasks-frame [] q w = refl
  add_tasks-frame (t ∷ ts) q w =
      let (q', w') = add_task b j q w t in add_tasks-frame ts q' w' ∙ add_task-frame q w t

  pub process_batch-frame :
      (q : Queue D) (ts : List WriteTask) → frame (process_batch b j q ts) ≡ frame q
  unfolding process_batch
  process_batch-frame q [] = refl
  process_batch-frame q (t ∷ ts) =
      let (q', w) = add_tasks b j q (b.new_write_batch q.db) (t ∷ ts) in
      after_flush-frame (t ∷ ts) q' (b.flush q'.db w)
      ∙ add_tasks-frame (t ∷ ts) q (b.new_write_batch q.db)
