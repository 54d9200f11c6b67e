-- ===== src/Storage/Api.antt =====
-- The interface `Storage` of pkg/storage/storage.go, as far as the handlers call it, and how
-- `BadgerStorage` fills it, with the rest of its small methods (badger_CRUD.go, badger_queue.go,
-- badger_utils.go).
use content_storage_server.Prelude.{ℕ, Bool, true, Option, none, some, List, [], ◌∷◌, Bytes, length}
use content_storage_server.Prelude.Int64.{Int64}
use content_storage_server.Prelude.Assoc
use content_storage_server.Prelude.Assoc.{Assoc}
use content_storage_server.Models.Content.{Content, ContentWithAccess}
use content_storage_server.Storage.Badger.{Badger, Codec, Item}
use content_storage_server.Storage.Error.{Error, Result, ok, err}
use content_storage_server.Storage.Access.{get_access_count}
use content_storage_server.Storage.Listing.{ContentFilter, list_with_filter, count_with_filter}
use content_storage_server.Storage.Queue.{Queue, is_content_in_queue}
use content_storage_server.Storage.Queue.Write.{begin_write_sync, finish_write_sync}
use content_storage_server.Storage.Queue.Worker.{Event, run_worker}
use content_storage_server.Storage.Queue.Flush.{simple_flush}
use content_storage_server.Storage.Crud.{
  BadgerStorage, with_system, with_queue, store, get, get_read_only, delete, wait_for_content_write,
}

-- `M` is what happens while a call runs, and when it runs.
pub record Storage (S M : Type 0) : Type 0 where
  pub count : S → ℕ
  pub store : S → Content → Option (S × Option Error)
  pub get : M → S → Bytes → S × Result ContentWithAccess
  pub delete : M → S → Bytes → S × Option Error
  pub get_read_only : M → S → Bytes → S × Result Content
  pub get_access_count : S → Bytes → Int64
  pub list_with_filter : M → S → Int64 → Int64 → Option ContentFilter → Result (List Content)
  pub count_with_filter : M → S → Option ContentFilter → ℕ
  pub wait_for_content_write : M → S → Bytes → S × Option Error
  pub is_content_in_queue : S → Bytes → Bool

-- What the worker does before and after a call registers its wait, and after a delete until its call
-- ends, the channel that the call makes, and the clock's reading.
pub record Moment : Type 0 where
  pub gap : List Event
  pub events : List Event
  pub later : List Event
  pub channel : ℕ
  pub now : ℕ

abbrev pub key_set : List Item → Assoc Bool
key_set [] = []
key_set (i ∷ is) = Assoc.put (key_set is) i.key true

module _ {D B : Type 0} (b : Badger D B) (j : Codec) where
  -- An error counts as zero.
  unfoldable pub count_items_in_db : D → ℕ
  count_items_in_db db = elim (b.scan db) [ err e ↦ 0 | ok is ↦ length is ]

  unfoldable pub get_all_content_ids : D → Result (Assoc Bool)
  get_all_content_ids db = elim (b.scan db) [ err e ↦ err e | ok is ↦ ok (key_set is) ]

  -- The wait of `StoreSync`, during which the worker does `es`.
  unfoldable pub after_begin :
      List Event
      → Bool
      → BadgerStorage D
      → Content
      → ℕ
      → Queue D × Option Error
      → Option (BadgerStorage D × Option Error)
  unfolding finish_write_sync
  after_begin es late s c r (q, some e) = some (with_system s (with_queue s.system q), some e)
  after_begin es late s c r (q, none) =
      let y = run_worker b j (with_queue s.system q) es in
      elim (finish_write_sync y.queue c r late) [
        | none ↦ none
        | some (q', e) ↦ some (with_system s (with_queue y q'), e)
      ]

  -- `StoreSync` with the new channel `r`; it waits until `late`, the timeout.
  unfoldable pub store_sync :
      List Event → Bool → BadgerStorage D → Content → ℕ → Option (BadgerStorage D × Option Error)
  unfolding begin_write_sync after_begin
  store_sync es late s c r = elim (begin_write_sync j s.system.queue c r) [
    | none ↦ none
    | some x ↦ after_begin es late s c r x
  ]

  -- `FlushQueue`: what the worker does until it stops is `es`.
  unfoldable pub flush_queue :
      List Event → BadgerStorage D → Option (BadgerStorage D × Option Error)
  unfolding simple_flush
  flush_queue es s = elim (simple_flush b j es s.system) [
    | none ↦ none
    | some (y, e) ↦ some (with_system s y, e)
  ]

  unfoldable pub wait_in_storage : Moment → BadgerStorage D → Bytes → BadgerStorage D × Option Error
  unfolding wait_for_content_write
  wait_in_storage m s k =
      let (y, e) = wait_for_content_write b j m.gap m.events s.system k m.channel in
      (with_system s y, e)

  -- The worker goes on from the delete to the end of the call.
  unfoldable pub delete_in_storage :
      Moment → BadgerStorage D → Bytes → BadgerStorage D × Option Error
  unfolding delete run_worker
  delete_in_storage m s k =
      let (s', r) = delete b j m.gap m.events s k m.channel in
      (with_system s' (run_worker b j s'.system m.later), r)

  unfoldable pub badger_storage : Storage (BadgerStorage D) Moment
  badger_storage = record {
    count = λ s. count_items_in_db s.system.queue.db;
    store = λ s c. store b j s c;
    get = λ m s k. get b j m.gap m.events s k m.channel m.now;
    delete = λ m s k. delete_in_storage m s k;
    get_read_only = λ m s k. get_read_only b j m.gap m.events s k m.channel m.now;
    get_access_count = λ s k. get_access_count s.access_manager k;
    list_with_filter =
        λ m s limit offset f. list_with_filter j m.now f b s.system.queue.db limit offset;
    count_with_filter = λ m s f. count_with_filter j m.now f b s.system.queue.db;
    wait_for_content_write = λ m s k. wait_in_storage m s k;
    is_content_in_queue = λ s k. is_content_in_queue s.system.queue k;
  }
