-- ===== src/Lib.antt =====
-- Models and proofs for the content storage server, a Go program that keeps contents with an expiry
-- and an access limit in BadgerDB, behind an asynchronous write queue.
--
-- How the parts work together. A write goes into the channel of the queue (pkg/storage/queue.go) and
-- into its map of pending items (pkg/storage/CountedSyncMap.go). One worker goroutine takes tasks off
-- the channel and writes them in batches; then it removes their pending items and tells those who
-- wait (pkg/storage/UnifiedNotificationSystem.go). A read or a delete (pkg/storage/badger_CRUD.go)
-- first waits until its key is not pending, then goes to the database; reads are counted in memory
-- (pkg/storage/access_manager.go) and limited by the content (pkg/models/content.go). Before that, a
-- request has passed the address list, the key check and the throttle (pkg/middleware), the
-- validation (internal/handlers/validation.go) and its handler (internal/handlers/content.go), which
-- uses the storage through the interface of pkg/storage/storage.go. The garbage collector also removes
-- the access counts of contents that are gone. A shutdown stops the background components, flushes
-- the queue and stops its worker; an emergency shutdown saves the tasks in files, and the next start
-- restores them (pkg/storage/recovery.go). The server (cmd/server/main.go) reads its configuration from
-- the environment (pkg/config/config.go), opens and starts the storage (pkg/storage/badger_init.go), and
-- serves until signals end it.
--
-- Which file models which part:
--   Prelude             Go's int64 and strings, maps as association lists, one-message channels
--   Models/Content      pkg/models/content.go: Content, its expiry and its limit
--   Storage/Error       the errors of pkg/storage, one constructor for each message
--     Error/Message     their texts
--   Storage/Badger      what is used of BadgerDB and of encoding/json, as records of operations
--   Storage/CountedSyncMap   pkg/storage/CountedSyncMap.go: Store, Load, LoadAndDelete, IsEmpty, ...
--   Storage/Notify      pkg/storage/UnifiedNotificationSystem.go: waiters and their signals
--   Storage/Queue       pkg/storage/queue.go: the record Queue is QueuedWriteBatch
--     Queue/Batch       processBatch, handleTaskError
--     Queue/Write       QueueWrite, QueueWriteSync, DoubleQueueCapacity
--     Queue/Worker      worker, stopWorker: a step for each ready case of the select
--     Queue/Flush       simpleFlush, drainQueuedTasksNonBlocking, forceProcessStuckTasks, Serialize*
--     Queue/Steps       QueueWrite, DoubleQueueCapacity and the worker interleaved
--   Storage/Access      pkg/storage/access_manager.go
--   Storage/Listing     pkg/storage/filter.go, pkg/storage/pagination.go
--   Storage/Crud        pkg/storage/badger_CRUD.go: Store, Get, GetReadOnly, Delete
--   Storage/Api         the interface of pkg/storage/storage.go and BadgerStorage as its implementation
--   Storage/Recovery    pkg/storage/recovery.go, and EmergencyShutdown of badger_close.go
--   Storage/Gc          pkg/storage/gc.go: a run of the collector, its metrics and its schedule
--   Storage/Close       pkg/storage/badger_close.go: shutdown and restart; Start and Stop of
--                       backup.go and health.go
--   Storage/Health      pkg/storage/health.go: the overall status
--   Storage/Backup      pkg/storage/backup.go: a backup and the removal of old ones
--   Storage/Open        pkg/storage/badger_init.go, and initializeStorage of cmd/server/main.go
--   Storage/Loops       gcLoop, backupLoop and StartCleanupLoop of gc.go, backup.go, access_manager.go
--   Storage/Managed     the methods of badger_backup.go, badger_gc.go and badger_health.go that pass on
--   Middleware          auth.go, throttle.go, ip_allowlist.go of pkg/middleware
--   Handlers/Validation internal/handlers/validation.go: Validate*, ParseContentFilter
--   Handlers/Http       the answers of the handlers
--   Handlers/Content    internal/handlers/content.go: each request on contents
--   Handlers/Maintenance   internal/handlers/health.go: health checks, metrics, maintenance requests
--   Handlers/Errors     internal/handlers/errors.go
--   Handlers/Shutdown   internal/handlers/shutdown.go
--   Config              pkg/config/config.go: Config and Load
--     Config/Env        the functions that read one variable
--     Config/Validate   Validate
--   Server/Signals      cmd/server/main.go and pkg/tls/autotls.go: the wait for signals and the ends
--   Server/Pipeline     pkg/middleware/setup.go: the order of the middleware
--   Examples            the theorems at concrete inputs
--
-- State is passed explicitly, and each operation of an object with a lock is one step. The worker is
-- run by a list of events, so that a theorem for all lists holds for every order in which its select
-- cases get ready. Elsewhere than in Queue/Steps an operation of the queue runs without interruption;
-- there writers, a growing of the channel and the worker take turns where they release a lock, and a
-- batch is one step.
--
-- Bounds and fuel. An int is its 64-bit pattern, and sums wrap; theorems that need sizes below 2^62
-- or 2^63 say so. The forced loop of a flush runs on one more round than there are tasks, which is
-- enough as each round writes at least one if the batch size is positive. Trimming a
-- string runs on its length, as each round shortens it; the delete loop and the opening of the database
-- run on their five attempts. All other loops are recursions on lists.
--
-- Parameters. BadgerDB is any record of operations; IsBadger states that a flushed batch overlays the
-- store, that a delete removes its key only and that a failed delete changes nothing; IsReliable that
-- no write fails.
-- Package net, the LRU cache of the address list, the struct validator, the parser of times, the
-- binding of a request and lower case are parameters too. So are the recovery directory, the JSON of
-- its files and their checksum: IsDisk states that a file that was written is read back and the
-- others stay, IsFormats that tasks and metadata can be encoded and are decoded to what they were.
-- The directory of backups and sort.Slice are parameters: IsBackupDirectory states that a removed file
-- is gone and no other, IsSort that the slice is ordered and keeps its elements.
-- Parsers of durations and of floating-point numbers, the limiter and the CORS middleware of echo,
-- badger.Open, and the listener while it shuts down are parameters as well.
-- The sizes and the outcome of BadgerDB's own collection, the clock, and how each stop of a
-- shutdown ends are arguments: one that is late may have run or not when the shutdown returns. So are
-- the delay of the SIGTERM that the server sends itself, and what is done while a request waits in the
-- backlog of the throttle. A background loop runs on the list of its ticks. During an emergency shutdown and a
-- recovery the worker takes no step. The worker runs on during the waits of a read or a delete,
-- and after a delete until its call ends. The
-- tickers of the collector and of the backups panic on an interval that is not positive.
--
-- Not modelled: the tuning and the warm-up of BadgerDB, restoring a backup, logging, routing, channel
-- statistics, what is printed, the generated API code, and the clients. Delays and log lines are left
-- out.
pub mod Prelude
pub mod Models
pub mod Storage
pub mod Middleware
pub mod Handlers
pub mod Config
pub mod Server
pub mod Examples
