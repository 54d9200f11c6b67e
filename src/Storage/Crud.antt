-- ===== src/Storage/Crud.antt =====
-- pkg/storage/badger_CRUD.go: reads and deletes over the database, the write queue and the access
-- counts. The steps of the worker while a call waits, and the clock's reading, are arguments.
pub mod Reads
pub mod Limits
pub mod Gets
pub mod Deletes
use content_storage_server.Prelude.{
  ℕ, zero, suc, Bool, true, false, ◌&&◌, ◌||◌, Option, none, some, List, [], ◌∷◌, Bytes, bytes,
  contains, ltb, ◌==◌, if◌then◌else◌,
}
use content_storage_server.Prelude.Int64.{Int64}
use content_storage_server.Models.Content.{
  Content, ContentWithAccess, is_expired, is_access_exhausted,
}
use content_storage_server.Storage.Badger.{Badger, Codec, Lookup, found, missing, failed}
use content_storage_server.Storage.Error.{
  DbError, conflict, other, Error, Result, ok, err, content_not_found, content_expired,
  access_limit_reached, unmarshal_failed, pending_write, delete_pending_write, wait_timeout,
  database, storage_not_ready,
}
use content_storage_server.Storage.Access.{
  AccessManager, get_access_count, increment_access, remove_access, create_content_with_access,
}
use content_storage_server.Storage.Notify.{register_completion_waiter, unregister_completion_waiter}
use content_storage_server.Storage.Queue.{Queue, is_content_in_queue}
use content_storage_server.Storage.Queue.Write.{queue_write}
use content_storage_server.Storage.Queue.Worker.{System, Event, run_worker}

-- `system` is the queued batch with its database.
pub record BadgerStorage (D : Type 0) : Type 0 where
  pub system : System D
  pub access_manager : AccessManager

abbrev pub with_system : {D : Type 0} → BadgerStorage D → System D → BadgerStorage D
with_system s y = record s { system = y }

abbrev pub with_queue : {D : Type 0} → System D → Queue D → System D
with_queue y q = record y { queue = q }

-- What the wait comes to: the notification, or the timeout.
abbrev waited : Bytes → Option (Unit {0}) → Option Error
waited k (some u) = none
waited k none = some (wait_timeout k)

-- The five attempts of a delete.
abbrev pub max_retries : ℕ
max_retries = 5

unfoldable pub is_retryable_transaction_error : DbError → Bool
is_retryable_transaction_error conflict = true
is_retryable_transaction_error (other msg) =
    contains msg (bytes "Transaction Conflict") || contains msg (bytes "transaction conflict")

-- The access limit is checked before the count grows, the expiry after that.
unfoldable pub count_access : AccessManager → Bytes → ℕ → Content → AccessManager × Result Content
unfolding get_access_count increment_access is_expired is_access_exhausted
count_access am k now c =
    if is_access_exhausted c (get_access_count am k)
    then (am, err access_limit_reached)
    else ((increment_access am k).0, (if is_expired c now then err content_expired else ok c))

-- What follows the read.
unfoldable pub after_retrieve :
    Bool → AccessManager → Bytes → ℕ → Result Content → AccessManager × Result Content
unfolding count_access
after_retrieve incr am k now (err e) = (am, err e)
after_retrieve false am k now (ok c) = (am, ok c)
after_retrieve true am k now (ok c) = count_access am k now c

module _ {D B : Type 0} (b : Badger D B) (j : Codec) where
  unfoldable pub store : BadgerStorage D → Content → Option (BadgerStorage D × Option Error)
  store s c = elim (queue_write j s.system.queue c) [
    | none ↦ none
    | some (q, e) ↦ some (with_system s (with_queue s.system q), e)
  ]

  -- `WaitForContentWrite` with the new channel `c`: `gap` is what the worker does between the check
  -- and the registration, `es` what it does from there until the timeout.
  unfoldable pub wait_for_content_write :
      List Event → List Event → System D → Bytes → ℕ → System D × Option Error
  wait_for_content_write gap es y k c =
      if is_content_in_queue y.queue k
      then (let y1 = run_worker b j y gap in
          let n1 = register_completion_waiter y1.queue.notifications k c in
          let y2 = run_worker b j (with_queue y1 (record y1.queue { notifications = n1 })) es in
          let n2 = unregister_completion_waiter y2.queue.notifications k c in
          (
            with_queue y2 (record y2.queue { notifications = n2 }),
            waited k (y2.queue.notifications.signals c),
          ))
      else (y, none)

  -- `retrieveAndProcessContent` in its View transaction.
  unfoldable pub retrieve : D → Bytes → Result Content
  retrieve db k = elim (b.read db k) [
    | missing ↦ err content_not_found
    | failed e ↦ err (database e)
    | found v ↦ elim (j.unmarshal v) [ none ↦ err unmarshal_failed | some c ↦ ok c ]
  ]

  -- `getContentFromDB` once the wait is over.
  unfoldable pub read_content :
      Bool → BadgerStorage D → Bytes → ℕ → BadgerStorage D × Result Content
  unfolding retrieve after_retrieve
  read_content incr s k now =
      let (am, r) = after_retrieve incr s.access_manager k now (retrieve s.system.queue.db k) in
      (record s { access_manager = am }, r)

  unfoldable pub get_content_from_db :
      List Event
      → List Event
      → Bool
      → BadgerStorage D
      → Bytes
      → ℕ
      → ℕ
      → BadgerStorage D × Result Content
  get_content_from_db gap es incr s k c now =
      let (y, failure) = wait_for_content_write gap es s.system k c in
      elim failure [
        | some e ↦ (with_system s y, err (pending_write k e))
        | none ↦ read_content incr (with_system s y) k now
      ]

  unfoldable pub get :
      List Event
      → List Event
      → BadgerStorage D
      → Bytes
      → ℕ
      → ℕ
      → BadgerStorage D × Result ContentWithAccess
  get gap es s k c now =
      let (s', r) = get_content_from_db gap es true s k c now in
      (s', (elim r [ err e ↦ err e | ok x ↦ ok (create_content_with_access s'.access_manager x) ]))

  unfoldable pub get_read_only :
      List Event → List Event → BadgerStorage D → Bytes → ℕ → ℕ → BadgerStorage D × Result Content
  get_read_only gap es s k c now = get_content_from_db gap es false s k c now

  unfoldable pub content_exists : D → Bytes → Result Bool
  content_exists db k = elim (b.read db k) [
    | missing ↦ ok false
    | failed e ↦ err (database e)
    | found v ↦ ok true
  ]

  -- The delete loop: `attempts` are left; a conflict is tried again unless this is the last one.
  unfoldable pub delete_loop : ℕ → D → Bytes → D × Option DbError
  unfolding is_retryable_transaction_error
  delete_loop zero db k = (db, none)
  delete_loop (suc attempts) db k =
      let (db', r) = b.delete db k in
      let again = delete_loop attempts db' k in
      elim r [
        | none ↦ (db', none)
        | some e ↦
            if is_retryable_transaction_error e && ltb 0 attempts then again else (db', some e)
      ]

  -- The result of the loop; the access count goes only if the delete succeeded.
  unfoldable pub after_delete :
      BadgerStorage D → Bytes → D × Option DbError → BadgerStorage D × Option Error
  unfolding remove_access
  after_delete s k (db, none) = (
    record (with_system s (with_queue s.system (record s.system.queue { db = db }))) {
      access_manager = remove_access s.access_manager k;
    },
    none,
  )
  after_delete s k (db, some e) =
      (with_system s (with_queue s.system (record s.system.queue { db = db })), some (database e))

  unfoldable pub delete_existing :
      BadgerStorage D → Bytes → Result Bool → BadgerStorage D × Option Error
  delete_existing s k (err e) = (s, some e)
  delete_existing s k (ok false) = (s, some content_not_found)
  delete_existing s k (ok true) = after_delete s k (delete_loop max_retries s.system.queue.db k)

  unfoldable pub delete :
      List Event → List Event → BadgerStorage D → Bytes → ℕ → BadgerStorage D × Option Error
  delete gap es s k c =
      let (y, failure) = wait_for_content_write gap es s.system k c in
      elim failure [
        | some e ↦ (with_system s y, some (delete_pending_write k e))
        | none ↦ delete_existing (with_system s y) k (content_exists y.queue.db k)
      ]
