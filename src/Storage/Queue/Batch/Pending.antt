-- ===== src/Storage/Queue/Batch/Pending.antt =====
-- What a batch does to the pending items and to the counters, whichever way it ends.
use content_storage_server.Prelude.{
  ◌≡◌, refl, ap, ◌∙◌, Bool, false, ◌||◌, Option, none, some, List, [], ◌∷◌, arith, Bytes, str_eq,
  str_eq_iff, if◌then◌else◌, Option-cases, inl, inr,
}
use content_storage_server.Storage.Badger.{Badger, Codec}
use content_storage_server.Storage.Error.{
  DbError, Error, flush_batch, add_to_batch, marshal_content,
}
use content_storage_server.Storage.CountedSyncMap
use content_storage_server.Storage.CountedSyncMap.{
  CountedSyncMap, IsCounted, load_and_delete-IsCounted, load-load_and_delete,
}
use content_storage_server.Storage.Queue.{Queue, WriteTask, task_id}
use content_storage_server.Storage.Queue.Batch.{
  names, unique_ids, handle_task_error, fail_all, complete_id, complete_ids, complete, after_set,
  after_flush, add_task, add_tasks, process_batch, encoded, answer_all,
}

abbrev pub has_id : List Bytes → Bytes → Bool
has_id [] k = false
has_id (i ∷ is) k = str_eq i k || has_id is k

names_same : (ts : List WriteTask) (i k : Bytes) → i ≡ k → names ts i ≡ names ts k
names_same ts i k e = ap (names ts) e

has_id_unique : (ts : List WriteTask) (k : Bytes) → has_id (unique_ids ts) k ≡ names ts k
unfolding unique_ids
has_id_unique [] k = refl
has_id_unique (t ∷ ts) k =
    ground (arith, has_id_unique ts k, str_eq_iff (task_id t) k, names_same ts (task_id t) k)

module _ {D : Type 0} where
  -- What the pending items of a queue hold for a key.
  abbrev pub pending : Queue D → Bytes → Option WriteTask
  pending q k = CountedSyncMap.load q.pending_items k

  abbrev pub IsQueueCounted : Queue D → Type 0
  IsQueueCounted q = IsCounted q.pending_items

  handle_task_error-pending :
      (q : Queue D) (t : WriteTask) (e : Error) (k : Bytes)
      → pending (handle_task_error q t e) k ≡ (if str_eq (task_id t) k then none else pending q k)
  unfolding handle_task_error
  handle_task_error-pending q t e k = load-load_and_delete q.pending_items (task_id t) k

  fail_all-pending :
      (ts : List WriteTask) (q : Queue D) (k : Bytes)
      → pending (fail_all q ts) k ≡ (if names ts k then none else pending q k)
  unfolding fail_all names
  fail_all-pending [] q k = refl
  fail_all-pending (t ∷ ts) q k = ground (
    arith,
    fail_all-pending ts (handle_task_error q t flush_batch) k,
    handle_task_error-pending q t flush_batch k,
  )

  complete_ids-pending :
      (is : List Bytes) (q : Queue D) (k : Bytes)
      → pending (complete_ids q is) k ≡ (if has_id is k then none else pending q k)
  unfolding complete_ids
  complete_ids-pending [] q k = refl
  complete_ids-pending (i ∷ is) q k =
      ground (
        arith,
        complete_ids-pending is (complete_id q i) k,
        load-load_and_delete q.pending_items i k,
      )

  after_flush-pending :
      (ts : List WriteTask) (q : Queue D) (r : D × Option DbError) (k : Bytes)
      → pending (after_flush q ts r) k ≡ (if names ts k then none else pending q k)
  unfolding after_flush complete
  after_flush-pending ts q (d, none) k =
      complete_ids-pending (unique_ids ts) _ k
      ∙ ap (λ b. if b then none else pending q k) (has_id_unique ts k)
  after_flush-pending ts q (d, some e) k = fail_all-pending ts (record q { db = d }) k

  after_set-pending :
      {B : Type 0} (q : Queue D) (t : WriteTask) (r : B × Option DbError) (k : Bytes)
      → str_eq (task_id t) k ≡ false
      → pending (after_set q t r).0 k ≡ pending q k
  unfolding after_set
  after_set-pending q t (w, none) k h = refl
  after_set-pending q t (w, some e) k h =
      ground (arith, handle_task_error-pending q t add_to_batch k)

  handle_task_error-IsCounted :
      (q : Queue D) (t : WriteTask) (e : Error)
      → IsQueueCounted q
      → IsQueueCounted (handle_task_error q t e)
  unfolding handle_task_error
  handle_task_error-IsCounted q t e h = load_and_delete-IsCounted q.pending_items (task_id t) h

  fail_all-IsCounted :
      (ts : List WriteTask) (q : Queue D) → IsQueueCounted q → IsQueueCounted (fail_all q ts)
  unfolding fail_all
  fail_all-IsCounted [] q h = h
  fail_all-IsCounted (t ∷ ts) q h =
      fail_all-IsCounted ts (handle_task_error q t flush_batch)
        (handle_task_error-IsCounted q t flush_batch h)

  complete_ids-IsCounted :
      (is : List Bytes) (q : Queue D) → IsQueueCounted q → IsQueueCounted (complete_ids q is)
  unfolding complete_ids complete_id
  complete_ids-IsCounted [] q h = h
  complete_ids-IsCounted (i ∷ is) q h =
      complete_ids-IsCounted is (complete_id q i) (load_and_delete-IsCounted q.pending_items i h)

  after_flush-IsCounted :
      (ts : List WriteTask) (q : Queue D) (r : D × Option DbError)
      → IsQueueCounted q
      → IsQueueCounted (after_flush q ts r)
  unfolding after_flush complete
  after_flush-IsCounted ts q (d, none) h =
      complete_ids-IsCounted (unique_ids ts)
        (record q { db = d; results = answer_all q.results ts }) h
  after_flush-IsCounted ts q (d, some e) h = fail_all-IsCounted ts (record q { db = d }) h

  after_set-IsCounted :
      {B : Type 0} (q : Queue D) (t : WriteTask) (r : B × Option DbError)
      → IsQueueCounted q
      → IsQueueCounted (after_set q t r).0
  unfolding after_set
  after_set-IsCounted q t (w, none) h = h
  after_set-IsCounted q t (w, some e) h = handle_task_error-IsCounted q t add_to_batch h

module _ {D B : Type 0} (b : Badger D B) (j : Codec) where
  add_task-pending :
      (q : Queue D) (w : B) (t : WriteTask) (k : Bytes)
      → str_eq (task_id t) k ≡ false
      → pending (add_task b j q w t).0 k ≡ pending q k
  unfolding add_task
  add_task-pending q w t k h = elim (Option-cases (encoded j t)) [
    | inl e ↦ rw (e, add_task) (ground (arith, handle_task_error-pending q t marshal_content k))
    | inr (v, e) ↦ rw (e, add_task) (after_set-pending q t (b.set w (task_id t) v) k h)
  ]

  add_tasks-pending :
      (ts : List WriteTask) (q : Queue D) (w : B) (k : Bytes)
      → names ts k ≡ false
      → pending (add_tasks b j q w ts).0 k ≡ pending q k
  unfolding add_tasks names
  add_tasks-pending [] q w k h = refl
  add_tasks-pending (t ∷ ts) q w k h = ground (
    arith,
    add_tasks-pending ts (add_task b j q w t).0 (add_task b j q w t).1 k,
    add_task-pending q w t k,
  )

  -- However a batch ends, whether its writes succeed or fail, no task of it is pending afterwards,
  -- and every other pending item stays as it is.
  pub process_batch-pending :
      (q : Queue D) (ts : List WriteTask) (k : Bytes)
      → pending (process_batch b j q ts) k ≡ (if names ts k then none else pending q k)
  unfolding process_batch names
  process_batch-pending q [] k = refl
  process_batch-pending q (t ∷ ts) k =
      let (q', w) = add_tasks b j q (b.new_write_batch q.db) (t ∷ ts) in
      ground (
        arith,
        after_flush-pending (t ∷ ts) q' (b.flush q'.db w) k,
        add_tasks-pending (t ∷ ts) q (b.new_write_batch q.db) k,
      )

  add_task-IsCounted :
      (q : Queue D) (w : B) (t : WriteTask)
      → IsQueueCounted q
      → IsQueueCounted (add_task b j q w t).0
  unfolding add_task
  add_task-IsCounted q w t h = elim (Option-cases (encoded j t)) [
    | inl e ↦ rw (e, add_task) (handle_task_error-IsCounted q t marshal_content h)
    | inr (v, e) ↦ rw (e, add_task) (after_set-IsCounted q t (b.set w (task_id t) v) h)
  ]

  add_tasks-IsCounted :
      (ts : List WriteTask) (q : Queue D) (w : B)
      → IsQueueCounted q
      → IsQueueCounted (add_tasks b j q w ts).0
  unfolding add_tasks
  add_tasks-IsCounted [] q w h = h
  add_tasks-IsCounted (t ∷ ts) q w h =
      let (q', w') = add_task b j q w t in add_tasks-IsCounted ts q' w' (add_task-IsCounted q w t h)

  -- If the count of the pending items is right before a batch, it is right afterwards, however
  -- the batch ends.
  pub process_batch-IsCounted :
      (q : Queue D) (ts : List WriteTask)
      → IsQueueCounted q
      → IsQueueCounted (process_batch b j q ts)
  unfolding process_batch
  process_batch-IsCounted q [] h = h
  process_batch-IsCounted q (t ∷ ts) h =
      let (q', w) = add_tasks b j q (b.new_write_batch q.db) (t ∷ ts) in
      after_flush-IsCounted (t ∷ ts) q' (b.flush q'.db w)
        (add_tasks-IsCounted (t ∷ ts) q (b.new_write_batch q.db) h)
