-- ===== src/Storage/CountedSyncMap.antt =====
-- pkg/storage/CountedSyncMap.go: a sync.Map beside an atomic count of its entries.
mod Defs
mod Laws
pub use Defs.{CountedSyncMap}
unfoldable pub use Defs.{
  new, store, load, load_or_store, load_and_delete, delete, range, count, is_empty,
}
pub use Laws.*
