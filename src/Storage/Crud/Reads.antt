-- ===== src/Storage/Crud/Reads.antt =====
-- Reads of pkg/storage/badger_CRUD.go: a read sees the last write that was taken, and a read that is
-- not to be counted counts nothing.
use content_storage_server.Prelude.{
  ℕ, ◌≡◌, refl, ap, ◌∙◌, false, Option, none, some, List, arith, Bytes, str_eq_refl,
}
use content_storage_server.Models.Content.{Content}
use content_storage_server.Storage.Badger.{Badger, Codec, IsBadger, found}
use content_storage_server.Storage.Error.{Error, Result, ok, err, pending_write}
use content_storage_server.Storage.Queue.{Queue, WriteTask, queued, task_id, is_content_in_queue}
use content_storage_server.Storage.Queue.Batch.{encoded}
use content_storage_server.Storage.Queue.Batch.Durable.{View, apply_task, IsReliable}
use content_storage_server.Storage.Queue.Write.Accept.{Took, async_task}
use content_storage_server.Storage.Queue.Worker.{System, running, Event, run_worker}
use content_storage_server.Storage.Queue.Worker.Eventual.{eventual, Took-eventual}
use content_storage_server.Storage.Queue.Worker.Bounds.{IsWorking}
use content_storage_server.Storage.Queue.Worker.Progress.{receive_all, run_worker-completes}
use content_storage_server.Storage.Crud.{
  BadgerStorage, with_queue, with_system, wait_for_content_write, retrieve, after_retrieve,
  read_content, get_content_from_db, get_read_only,
}

written :
    (j : Codec) (m : View) (t : WriteTask) (v : Bytes)
    → t.marshaled_data ≡ some v
    → apply_task j m t (task_id t) ≡ found v
unfolding encoded
written j m t v e = ground (arith, str_eq_refl (task_id t))

module _ {D B : Type 0} (b : Badger D B) (j : Codec) where
  retrieve_found :
      (db : D) (k v : Bytes) (c : Content)
      → b.read db k ≡ found v
      → j.unmarshal v ≡ some c
      → retrieve b j db k ≡ ok c
  unfolding retrieve
  retrieve_found db k v c h u = rw (h, retrieve) (rw u)

  -- On a database that takes every write, once a running worker whose batch and timer are in
  -- order has written what was outstanding when a write was taken, a read of its key returns the
  -- content that was written, if decoding inverts its encoding.
  pub read_after_write :
      IsBadger b
      → IsReliable b
      → (y : System D) (c : Content) (v : Bytes) (q : Queue D) → j.unmarshal v ≡ some c
      → Took y.queue (async_task c v) q
      → y.phase ≡ running
      → IsWorking (with_queue y q)
      → retrieve b j
          (run_worker b j (with_queue y q) (receive_all (queued q.write_queue))).queue.db
          c.id
        ≡ ok c
  read_after_write L r y c v q decodes took run working =
      let t = async_task c v in
      let y' = run_worker b j (with_queue y q) (receive_all (queued q.write_queue)) in
      let shows : b.read y'.queue.db ≡ apply_task j (eventual b j y) t =
        (run_worker-completes b j L r (with_queue y q) run working).1
        ∙ Took-eventual b j y t q took in
      retrieve_found y'.queue.db c.id v c
        (ap (λ (m : View). m c.id) shows ∙ written j (eventual b j y) t v refl) decodes

  pub no_wait :
      (y : System D) (gap es : List Event) (k : Bytes) (c : ℕ)
      → is_content_in_queue y.queue k ≡ false
      → wait_for_content_write b j gap es y k c ≡ (y, none)
  unfolding wait_for_content_write
  no_wait y gap es k c h = rw (h, wait_for_content_write)

  read_only_state :
      (s : BadgerStorage D) (now : ℕ) (k : Bytes) (r : Result Content)
      → retrieve b j s.system.queue.db k ≡ r
      → read_content b j false s k now ≡ (s, r)
  unfolding read_content after_retrieve
  read_only_state s now k (ok c) e = rw (e, read_content)
  read_only_state s now k (err x) e = rw (e, read_content)

  -- `get_content_from_db` after its wait.
  abbrev after_wait :
      BadgerStorage D → Bytes → ℕ → System D × Option Error → BadgerStorage D × Result Content
  after_wait s k now (y, failure) = elim failure [
    | some e ↦ (with_system s y, err (pending_write k e))
    | none ↦ read_content b j false (with_system s y) k now
  ]

  -- A read-only read of a key that is not pending returns what is stored and leaves the access
  -- counts and the queue alone.
  pub get_read_only_lem :
      (s : BadgerStorage D) (gap es : List Event) (k : Bytes) (c now : ℕ)
      → is_content_in_queue s.system.queue k ≡ false
      → get_read_only b j gap es s k c now ≡ (s, retrieve b j s.system.queue.db k)
  unfolding get_read_only get_content_from_db
  get_read_only_lem s gap es k c now h =
      ap (after_wait s k now) (no_wait s.system gap es k c h)
      ∙ read_only_state s now k (retrieve b j s.system.queue.db k) refl
