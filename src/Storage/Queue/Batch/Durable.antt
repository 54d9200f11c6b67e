-- ===== src/Storage/Queue/Batch/Durable.antt =====
-- What a batch writes (pkg/storage/queue.go), against an abstract store: the tasks of the batch
-- applied one after the other, so that the last write of a key wins.
use content_storage_server.Prelude.{
  ◌≡◌, refl, ap, ◌∙◌, Option, none, some, List, [], ◌∷◌, ◌++◌, arith, Bytes, str_eq, if◌then◌else◌,
  Option-cases, inl, inr,
}
use mathlib.Core.Path.{fun_ext}
use content_storage_server.Storage.Badger.{Badger, Codec, Lookup, overlay, IsBadger}
use content_storage_server.Storage.Error.{DbError, flush_batch}
use content_storage_server.Storage.Queue.{Queue, WriteTask, task_id}
use content_storage_server.Storage.Queue.Batch.{
  handle_task_error, fail_all, complete_id, complete_ids, complete, after_set, after_flush,
  add_task, add_tasks, process_batch, encoded, unique_ids, answer_all,
}

-- The abstract store: what a read of each key answers.
abbrev pub View : Type 0
View = Bytes → Lookup

abbrev pub apply_task : Codec → View → WriteTask → View
apply_task j m t k = if str_eq (task_id t) k then overlay (encoded j t) (m k) else m k

-- Sequential writes, in the order of the list.
unfoldable pub apply_tasks : Codec → View → List WriteTask → View
apply_tasks j m [] = m
apply_tasks j m (t ∷ ts) = apply_tasks j (apply_task j m t) ts

pub apply_tasks-nil : (j : Codec) (m : View) → apply_tasks j m [] ≡ m
unfolding apply_tasks
apply_tasks-nil j m = refl

pub apply_tasks-one :
    (j : Codec) (m : View) (t : WriteTask) → apply_tasks j m (t ∷ []) ≡ apply_task j m t
unfolding apply_tasks
apply_tasks-one j m t = refl

pub apply_tasks-append :
    (j : Codec) (m : View) (ts us : List WriteTask)
    → apply_tasks j m (ts ++ us) ≡ apply_tasks j (apply_tasks j m ts) us
unfolding apply_tasks
apply_tasks-append j m [] us = refl
apply_tasks-append j m (t ∷ ts) us = apply_tasks-append j (apply_task j m t) ts us

-- Every write that is tried succeeds.
pub record IsReliable {D B : Type 0} (b : Badger D B) : Type 0 where
  pub set_ok : (w : B) (k v : Bytes) → (b.set w k v).1 ≡ none
  pub flush_ok : (d : D) (w : B) → (b.flush d w).1 ≡ none

module _ {D : Type 0} where
  complete_ids-db : (is : List Bytes) (q : Queue D) → (complete_ids q is).db ≡ q.db
  unfolding complete_ids
  complete_ids-db [] q = refl
  complete_ids-db (i ∷ is) q = complete_ids-db is (complete_id q i)

  fail_all-db : (ts : List WriteTask) (q : Queue D) → (fail_all q ts).db ≡ q.db
  unfolding fail_all
  fail_all-db [] q = refl
  fail_all-db (t ∷ ts) q = fail_all-db ts (handle_task_error q t flush_batch)

  after_flush-db :
      (ts : List WriteTask) (q : Queue D) (r : D × Option DbError) → (after_flush q ts r).db ≡ r.0
  unfolding after_flush complete
  after_flush-db ts q (d, none) =
      complete_ids-db (unique_ids ts) (record q { db = d; results = answer_all q.results ts })
  after_flush-db ts q (d, some e) = fail_all-db ts (record q { db = d })

  after_set-db :
      {B : Type 0} (q : Queue D) (t : WriteTask) (r : B × Option DbError)
      → ((after_set q t r).0.db ≡ q.db) × ((after_set q t r).1 ≡ r.0)
  unfolding after_set
  after_set-db q t (w, none) = (refl, refl)
  after_set-db q t (w, some e) = (refl, refl)

module _ {D B : Type 0} (b : Badger D B) (j : Codec) where
  add_task-db : (q : Queue D) (w : B) (t : WriteTask) → (add_task b j q w t).0.db ≡ q.db
  unfolding add_task
  add_task-db q w t = elim (Option-cases (encoded j t)) [
    | inl e ↦ rw (e, add_task) refl
    | inr (v, e) ↦ rw (e, add_task) (after_set-db q t (b.set w (task_id t) v)).0
  ]

  pub add_tasks-db :
      (ts : List WriteTask) (q : Queue D) (w : B) → (add_tasks b j q w ts).0.db ≡ q.db
  unfolding add_tasks
  add_tasks-db [] q w = refl
  add_tasks-db (t ∷ ts) q w =
      let (q', w') = add_task b j q w t in add_tasks-db ts q' w' ∙ add_task-db q w t

  -- The database takes each task that can be encoded into the batch as it is then.
  abbrev pub TakesAll : Queue D → B → List WriteTask → Type 0
  TakesAll q w [] = Unit {0}
  TakesAll q w (t ∷ ts) =
      ((v : Bytes) → encoded j t ≡ some v → (b.set w (task_id t) v).1 ≡ none)
      × TakesAll (add_task b j q w t).0 (add_task b j q w t).1 ts

  reliable-TakesAll :
      (r : IsReliable b) (ts : List WriteTask) (q : Queue D) (w : B) → TakesAll q w ts
  reliable-TakesAll r [] q w = tt
  reliable-TakesAll r (t ∷ ts) q w = (
    λ v e. r.set_ok w (task_id t) v,
    reliable-TakesAll r ts (add_task b j q w t).0 (add_task b j q w t).1,
  )

  module _ (L : IsBadger b) where
    -- What the batch and a store show together.
    abbrev shown : B → View → View
    shown w m k = overlay (L.writes w k) (m k)

    add_task-shown :
        (q : Queue D) (w : B) (t : WriteTask) (m : View) (k : Bytes)
        → ((v : Bytes) → encoded j t ≡ some v → (b.set w (task_id t) v).1 ≡ none)
        → shown (add_task b j q w t).1 m k ≡ apply_task j (shown w m) t k
    unfolding add_task
    add_task-shown q w t m k takes = elim (Option-cases (encoded j t)) [
      | inl e ↦ rw (e, add_task) (ground (arith, e))
      | inr (v, e) ↦
          rw (e, add_task)
            (ground (
              arith,
              e,
              (after_set-db q t (b.set w (task_id t) v)).1,
              L.writes-set w (task_id t) v (takes v e) k,
            ))
    ]

    add_tasks-shown :
        (ts : List WriteTask) (q : Queue D) (w : B) (m : View) (k : Bytes)
        → TakesAll q w ts
        → shown (add_tasks b j q w ts).1 m k ≡ apply_tasks j (shown w m) ts k
    unfolding add_tasks apply_tasks
    add_tasks-shown [] q w m k takes = refl
    add_tasks-shown (t ∷ ts) q w m k takes =
        let (q', w') = add_task b j q w t in
        add_tasks-shown ts q' w' m k takes.1
        ∙ ap (λ (n : View). apply_tasks j n ts k) (fun_ext (λ i. add_task-shown q w t m i takes.0))

    -- If the database takes each task into the batch and then takes the batch, reading any key
    -- afterwards answers as if the tasks of the batch had been written one after the other.
    pub process_batch-durable :
        (q : Queue D) (ts : List WriteTask)
        → TakesAll q (b.new_write_batch q.db) ts
        → (b.flush q.db (add_tasks b j q (b.new_write_batch q.db) ts).1).1 ≡ none
        → (k : Bytes) → b.read (process_batch b j q ts).db k ≡ apply_tasks j (b.read q.db) ts k
    unfolding process_batch
    process_batch-durable q [] takes flushed k = rw apply_tasks-nil
    process_batch-durable q (t ∷ ts) takes flushed k =
        let all : List WriteTask = t ∷ ts in
        let w0 = b.new_write_batch q.db in
        let (q', w) = add_tasks b j q w0 all in
        ap (λ d. b.read d k) (after_flush-db all q' (b.flush q'.db w))
        ∙ ap (λ d. b.read (b.flush d w).0 k) (add_tasks-db all q w0)
        ∙ L.read-flush q.db w flushed k
        ∙ add_tasks-shown all q w0 (b.read q.db) k takes
        ∙ ap (λ (m : View). apply_tasks j m all k) (fun_ext (λ i. rw (L.writes-new q.db i)))

  -- With a database that takes every write, a batch is its tasks written one after the other.
  pub process_batch-apply :
      IsBadger b
      → IsReliable b
      → (q : Queue D) (ts : List WriteTask)
      → b.read (process_batch b j q ts).db ≡ apply_tasks j (b.read q.db) ts
  process_batch-apply L r q ts = fun_ext (λ k.
      process_batch-durable L q ts (reliable-TakesAll r ts q (b.new_write_batch q.db))
        (r.flush_ok _ _) k)
