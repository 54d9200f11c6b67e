-- ===== src/Storage/Crud/Gets.antt =====
-- `Store` and `Get` of pkg/storage/badger_CRUD.go whole: a store that returns no error has queued its
-- content, and a read of a key that is not pending returns what is stored, and counts it.
use content_storage_server.Prelude.{
  ℕ, ◌≡◌, ap, ◌∙◌, inl, inr, true, false, Option, none, some, List, arith, Bytes, Bool-cases,
}
use content_storage_server.Models.Content.{
  Content, ContentWithAccess, is_expired, is_access_exhausted,
}
use content_storage_server.Storage.Badger.{Badger, Codec}
use content_storage_server.Storage.Error.{Error, Result, ok, err, pending_write}
use content_storage_server.Storage.Access.{
  AccessManager, get_access_count, increment_access, create_content_with_access,
}
use content_storage_server.Storage.Queue.{Queue, is_content_in_queue}
use content_storage_server.Storage.Queue.Write.{queue_write}
use content_storage_server.Storage.Queue.Write.Capacity.{IsSized}
use content_storage_server.Storage.Queue.Write.Accept.{
  takes, Took, async_task, queue_write-accepts, queue_write-refuses,
}
use content_storage_server.Storage.Queue.Worker.{System, Event}
use content_storage_server.Storage.Crud.{
  BadgerStorage, with_system, with_queue, store, retrieve, count_access, read_content,
  get_content_from_db, get,
}
use content_storage_server.Storage.Crud.Reads.{no_wait}
use content_storage_server.Storage.Crud.Limits.{read_content_ok}

module _ {D B : Type 0} (b : Badger D B) (j : Codec) where
  store_lem :
      (s : BadgerStorage D) (c : Content) (q : Queue D) (e : Option Error)
      → queue_write j s.system.queue c ≡ some (q, e)
      → store b j s c ≡ some (with_system s (with_queue s.system q), e)
  unfolding store
  store_lem s c q e h = rw (h, store)

  -- On a queue whose sizes are in order, a store of a content that can be marshaled and that returns
  -- no error has taken its task.
  pub store-Took :
      (s s' : BadgerStorage D) (c : Content) (v : Bytes)
      → j.marshal c ≡ some v
      → IsSized s.system.queue
      → store b j s c ≡ some (s', none)
      → (q : Queue D) × (s' ≡ with_system s (with_queue s.system q))
        × Took s.system.queue (async_task c v) q
  store-Took s s' c v coded sized h = elim (Bool-cases (takes s.system.queue)) [
    | inl room ↦
        let (q, e, took) = queue_write-accepts j s.system.queue c v coded sized room in
        (q, cc (store_lem s c q none e, h), took)
    | inr full ↦ absurd (
        cc (
          store_lem s c s.system.queue _
              (queue_write-refuses j s.system.queue c v coded sized full),
          h,
        ))
  ]

  abbrev with_access : BadgerStorage D → AccessManager → BadgerStorage D
  with_access s am = record s { access_manager = am }

  -- What `get_content_from_db` makes of its wait.
  abbrev pub counted_after :
      BadgerStorage D → Bytes → ℕ → System D × Option Error → BadgerStorage D × Result Content
  counted_after s k now (y, failure) = elim failure [
    | some e ↦ (with_system s y, err (pending_write k e))
    | none ↦ read_content b j true (with_system s y) k now
  ]

  -- What `get` makes of the read.
  abbrev pub finished :
      BadgerStorage D × Result Content → BadgerStorage D × Result ContentWithAccess
  finished (s, r) =
      (s, (elim r [ err e ↦ err e | ok x ↦ ok (create_content_with_access s.access_manager x) ]))

  -- A read of a key that is not pending, and whose content is stored, below its limit and not
  -- expired, returns it, with a count that is one higher.
  pub get-counts :
      (s : BadgerStorage D) (gap es : List Event) (k : Bytes) (r now : ℕ) (c : Content)
      → is_content_in_queue s.system.queue k ≡ false
      → retrieve b j s.system.queue.db k ≡ ok c
      → is_access_exhausted c (get_access_count s.access_manager k) ≡ false
      → is_expired c now ≡ false
      → get b j gap es s k r now ≡ (
        with_access s (increment_access s.access_manager k).0,
        ok (create_content_with_access (increment_access s.access_manager k).0 c),
      )
  unfolding get get_content_from_db count_access
  get-counts s gap es k r now c idle stored below alive =
      let am = (increment_access s.access_manager k).0 in
      let counted : count_access s.access_manager k now c ≡ (am, ok c) =
        ground (arith, below, alive) in
      let read : get_content_from_db b j gap es true s k r now ≡ (with_access s am, ok c) =
        ap (counted_after s k now) (no_wait b j s.system gap es k r idle)
        ∙ read_content_ok b j s k now c stored
        ∙ ap (λ (p : AccessManager × Result Content). (with_access s p.0, p.1)) counted in
      ap finished read
