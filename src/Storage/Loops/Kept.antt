-- ===== src/Storage/Loops/Kept.antt =====
-- What the collector's loop of pkg/storage/gc.go keeps.
use content_storage_server.Prelude.{ℕ, ◌≡◌, List, Bytes}
use content_storage_server.Storage.Error.{ok}
use content_storage_server.Storage.Badger.{Badger, Codec, Item}
use content_storage_server.Storage.Access.{get_access_count}
use content_storage_server.Storage.Crud.{BadgerStorage}
use content_storage_server.Storage.Gc.{GarbageCollector}
use content_storage_server.Storage.Gc.Runs.{IsBalanced}
use content_storage_server.Storage.Loops.{Ticker}
use content_storage_server.Storage.Loops.Pace.{IsPaced}

module _ {D B : Type 0} (b : Badger D B) (j : Codec) where
  module _ (is : List Item) (k : Bytes) (interval count : ℕ) where
    -- The contents, the count of the key, and the interval as they were, with `more` ticks to come.
    pub record IsKept (more : ℕ) (y : Ticker × (GarbageCollector × BadgerStorage D)) : Type 0 where
      pub balanced : IsBalanced y.1.0
      pub listed : b.scan y.1.1.system.queue.db ≡ ok is
      pub same_count : get_access_count y.1.1.access_manager k ≡ count
      pub same_interval : y.1.0.interval ≡ interval
      pub in_pace : IsPaced 300000000000 interval more y.0
