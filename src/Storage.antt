-- ===== src/Storage.antt =====
-- pkg/storage: the write queue, the access counts, and reads and deletes over BadgerDB.
pub mod Error
pub mod Badger
pub mod CountedSyncMap
pub mod Notify
pub mod Queue
pub mod Access
pub mod Listing
pub mod Crud
pub mod Api
pub mod Recovery
pub mod Gc
pub mod Close
pub mod Health
pub mod Backup
pub mod Open
pub mod Managed
pub mod Loops
