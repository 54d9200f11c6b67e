-- ===== src/Storage/Open/Ready.antt =====
-- What a storage that was opened and started satisfies (pkg/storage/badger_init.go, cmd/server/main.go).
use content_storage_server.Prelude.{
  ℕ, zero, suc, ◌+◌, ◌≤◌, ◌<◌, ◌≡◌, refl, sym, ap, ◌∙◌, Bool, true, false, Option, none, some, [],
  arith, Bytes, if◌then◌else◌, if_induction, Option-cases, inl, inr, ◌⊎◌,
}
use content_storage_server.Prelude.Int64.{slt}
use content_storage_server.Config.{Config}
use content_storage_server.Storage.Badger.{Badger, Codec}
use content_storage_server.Storage.Error.{DbError}
use content_storage_server.Prelude.Assoc
use content_storage_server.Storage.CountedSyncMap
use content_storage_server.Storage.CountedSyncMap.{new-IsCounted}
use content_storage_server.Storage.Queue.{Queue}
use content_storage_server.Storage.Queue.Batch.Pending.{pending, IsQueueCounted}
use content_storage_server.Storage.Queue.Write.Capacity.{IsSized}
use content_storage_server.Storage.Queue.Worker.Bounds.{IsWorking}
use content_storage_server.Storage.Queue.Worker.Eventual.{outstanding}
use content_storage_server.Storage.Gc.{
  GarbageCollector, new_garbage_collector, new_metrics, set_interval, start_internal, stop_internal,
}
use content_storage_server.Storage.Gc.Runs.{IsBalanced}
use content_storage_server.Storage.Close.{BackupManager, start_backups, start_health}
use content_storage_server.Storage.Close.Stops.{IsFirst}
use content_storage_server.Storage.Open.{
  BadgerOptions, or_default, start_monitor, with_defaults, Opened, database, not_opened, open_from,
  open_database, configure_gc, initialize_queued_writes, Storage, created, build,
  new_badger_storage, new_badger_storage_with_recovery, server_options, start_gc_loop, start_backup,
  start_storage, initialize_storage,
}

pub Opened-cases :
    {D : Type 0} (o : Opened D)
    → ((db : D) × (o ≡ database db)) ⊎ ((e : DbError) × (o ≡ not_opened e))
Opened-cases (database db) = inl (db, refl)
Opened-cases (not_opened e) = inr (e, refl)

-- An attempt that succeeds, `k` after number `n`, is among those that are made.
open_from-opens :
    {D : Type 0} (open_db : ℕ → Opened D) (left k : ℕ) (db : D) (n : ℕ)
    → open_db (n + k) ≡ database db
    → k ≤ left
    → (db' : D) × ((open_from open_db left n).0 ≡ database db')
unfolding open_from
open_from-opens open_db zero k db n e h =
    let at_n : n + k ≡ n = omega (arith, h) in (db, ap open_db (sym at_n) ∙ e)
open_from-opens open_db (suc left) zero db n e h =
    let at_n : n + 0 ≡ n = omega arith in (db, rw (ap open_db (sym at_n) ∙ e, open_from) refl)
open_from-opens open_db (suc left) (suc k) db n e h = elim (Opened-cases (open_db n)) [
  | inl (db0, x) ↦ (db0, rw (x, open_from) refl)
  | inr (x, y) ↦
      let later : n + 1 + k ≡ n + suc k = omega arith in
      let (db', found) =
        open_from-opens open_db left k db (n + 1) (ap open_db later ∙ e) (omega (arith, h)) in
      (db', rw (y, open_from) found)
]

-- A collector that was never used, whatever its options.
record IsNew (g : GarbageCollector) : Type 0 where
  no_runs : g.metrics ≡ new_metrics
  not_stopped : g.stop_spent ≡ false

set_interval-IsNew : (d : ℕ) (g : GarbageCollector) → IsNew g → IsNew (set_interval d g)
unfolding set_interval start_internal stop_internal
set_interval-IsNew d g h = ground arith

configure_gc-IsNew :
    {F : Type 0} (o : BadgerOptions F) (g : GarbageCollector) → IsNew g → IsNew (configure_gc o g)
unfolding configure_gc
configure_gc-IsNew o g h =
    let g1 = if slt 0 o.gc_interval then set_interval o.gc_interval g else g in
    let new1 : IsNew g1 =
      if_induction IsNew (slt 0 o.gc_interval) (set_interval-IsNew o.gc_interval g h) h in
    if_induction IsNew o.enable_adaptive_gc
      (record { no_runs = new1.no_runs; not_stopped = new1.not_stopped }) new1

-- The collector, started with an interval.
abbrev started_gc : ℕ → GarbageCollector → GarbageCollector
started_gc d g = start_internal (set_interval d g)

started_gc-IsNew :
    (d : ℕ) (g : GarbageCollector)
    → IsNew g
    → IsNew (started_gc d g) × ((started_gc d g).is_running ≡ true)
unfolding start_internal
started_gc-IsNew d g h =
    let new1 = set_interval-IsNew d g h in
    (ground (arith, new1.no_runs, new1.not_stopped), ground arith)

start_gc_loop-starts :
    (d : ℕ) (g : GarbageCollector) → slt 0 d ≡ true → start_gc_loop d g ≡ some (started_gc d g)
unfolding start_gc_loop
start_gc_loop-starts d g e = rw (e, start_gc_loop) refl

start_backup-starts :
    (made : Bool) (d : ℕ) (m : BackupManager)
    → slt 0 d ≡ true
    → start_backup made d m ≡ some (start_backups made m).0
unfolding start_backup
start_backup-starts made d m e = elim (Option-cases (start_backups made m).1) [
  | inl x ↦ rw (x, start_backup) (rw (e, start_backup) refl)
  | inr (y, x) ↦ rw (x, start_backup) refl
]

new-IsBalanced : (g : GarbageCollector) → IsNew g → IsBalanced g
unfolding new_metrics
new-IsBalanced g h = ground (arith, h.no_runs)

module _ {D B : Type 0} (b : Badger D B) (j : Codec) where
  abbrev GcBalanced : Option GarbageCollector → Type 0
  GcBalanced none = Unit {0}
  GcBalanced (some g) = IsBalanced g × (g.is_running ≡ true)

  -- The state in which the other theorems on the storage start.
  pub record IsReady (s : Storage D) : Type 0 where
    pub sized : IsSized s.components.system.queue
    pub ten_times : s.components.system.queue.max_multiplier ≡ 10
    pub working : IsWorking s.components.system
    pub counted : IsQueueCounted s.components.system.queue
    pub nothing_outstanding : outstanding s.components.system ≡ []
    pub nothing_pending : (k : Bytes) → pending s.components.system.queue k ≡ none
    pub collects : GcBalanced s.components.gc
    pub first : IsFirst b j s.components
    pub is_open : s.components.is_closed ≡ false

  -- What `start_storage` leaves of a new storage if no ticker panics.
  abbrev all_started : {F : Type 0} → Config F → Bool → BadgerOptions F → ℕ → D → Storage D
  all_started cfg made o now db =
      let s = build o now db in
      record s {
        components = record s.components {
          gc = some (started_gc cfg.gc_interval (configure_gc o new_garbage_collector));
          backup_manager =
              some
                (start_backups made
                  (record { is_running = false; stop_spent = false; last_backup = none })).0;
          health_monitor = some (start_health (record { is_running = false; stop_spent = false }));
        };
      }

  -- With its collector and its backups there, every component is started.
  start_storage-starts :
      {F : Type 0} (cfg : Config F) (made : Bool) (s : Storage D) (g : GarbageCollector)
      (m : BackupManager)
      → s.components.gc ≡ some g
      → s.components.backup_manager ≡ some m
      → slt 0 cfg.gc_interval ≡ true
      → slt 0 (or_default cfg.backup_interval 21600000000000) ≡ true
      → start_storage cfg made s
        ≡ some (record s {
          components = record s.components {
            gc = some (started_gc cfg.gc_interval g);
            backup_manager = some (start_backups made m).0;
            health_monitor = start_monitor s.components.health_monitor;
          };
        })
  unfolding start_storage
  start_storage-starts cfg made s g m has_gc has_backup gc_ticks backup_ticks =
      let interval = or_default cfg.backup_interval 21600000000000 in
      rw (has_gc, start_storage)
        (rw (start_gc_loop-starts cfg.gc_interval g gc_ticks, start_storage)
          (rw (has_backup, start_storage)
            (rw (start_backup-starts made interval m backup_ticks, start_storage) refl)))

  new_storage-created :
      {F : Type 0} (opts : BadgerOptions F) (enabled : Bool) (recover : Queue D → Queue D) (now : ℕ)
      (open_db : ℕ → Opened D) (db : D)
      → enabled ≡ false
      → (open_database open_db).0 ≡ database db
      → new_badger_storage_with_recovery opts enabled recover now open_db true
        ≡ created (build (with_defaults opts) now db)
  unfolding new_badger_storage_with_recovery new_badger_storage
  new_storage-created opts enabled recover now open_db db off e =
      rw (e, new_badger_storage_with_recovery) (rw (off, new_badger_storage_with_recovery) refl)

  started-IsReady :
      {F : Type 0} (cfg : Config F) (badger_dir : Bytes) (now : ℕ) (made : Bool) (db : D)
      → or_default cfg.write_queue_size 10000 < 100000000000000000
      → 0 < or_default cfg.write_queue_batch_size 100
      → or_default cfg.write_queue_batch_size 100 < 9223372036854775808
      → IsReady (all_started cfg made (with_defaults (server_options cfg badger_dir)) now db)
  unfolding build with_defaults server_options new_garbage_collector initialize_queued_writes
      start_backups start_health CountedSyncMap.load Assoc.get
  started-IsReady cfg badger_dir now made db size batch_pos batch_small =
      let o = with_defaults (server_options cfg badger_dir) in
      let (new_gc, runs) = started_gc-IsNew cfg.gc_interval (configure_gc o new_garbage_collector) (
        configure_gc-IsNew o new_garbage_collector
          (record { no_runs = refl; not_stopped = refl })) in
      record {
        sized = record {
          fits = (refl, omega arith);
          grown = omega arith;
          size_small = omega (arith, size);
          limit_small = omega (arith, size);
        };
        ten_times = refl;
        working = record {
          positive = batch_pos;
          signed = batch_small;
          below = batch_pos;
          timed = refl;
        };
        counted = new-IsCounted;
        nothing_outstanding = refl;
        nothing_pending = λ k. refl;
        collects = (new-IsBalanced _ new_gc, runs);
        first = record {
          gc_first = ground (arith, new_gc.not_stopped);
          backup_first = ground arith;
          health_first = refl;
        };
        is_open = refl;
      }

  -- If one of the five attempts to open the database succeeds, the recovery directory can be
  -- made, the recovery is disabled, the configured intervals of the collector and of the backups
  -- are positive as signed numbers (0 standing for the default of the backups), and the
  -- configured queue size is below 10 ^ 17 and the batch size positive and below 2 ^ 63 (0
  -- standing for the defaults): the storage is created, and is ready. Its queue has sizes in
  -- order, may grow to ten times its size and has nothing outstanding or pending, its worker runs
  -- with its batch and timer in order, its collector runs with balanced metrics, and no component
  -- was stopped or closed.
  pub initialize_storage-IsReady :
      {F : Type 0} (cfg : Config F) (badger_dir : Bytes) (recover : Queue D → Queue D) (now : ℕ)
      (open_db : ℕ → Opened D) (made : Bool) (k : ℕ) (db : D)
      → cfg.enable_emergency_recovery ≡ false
      → or_default cfg.write_queue_size 10000 < 100000000000000000
      → 0 < or_default cfg.write_queue_batch_size 100
      → or_default cfg.write_queue_batch_size 100 < 9223372036854775808
      → slt 0 cfg.gc_interval ≡ true
      → slt 0 (or_default cfg.backup_interval 21600000000000) ≡ true
      → open_db (1 + k) ≡ database db
      → k ≤ 4
      → (s : Storage D) × (initialize_storage cfg badger_dir recover now open_db true made
          ≡ created s)
        × IsReady s
  unfolding initialize_storage open_database build
  initialize_storage-IsReady cfg badger_dir recover now open_db made k db off size positive small
        gc_ticks backup_ticks e few =
      let (db', opened) = open_from-opens open_db 4 k db 1 e few in
      let opts = server_options cfg badger_dir in
      let o = with_defaults opts in
      (
        all_started cfg made o now db',
        rw
            (
              new_storage-created opts cfg.enable_emergency_recovery recover now open_db db' off
                  opened,
              initialize_storage,
            )
            (rw
              (
                start_storage-starts cfg made (build o now db')
                    (configure_gc o new_garbage_collector)
                    (record { is_running = false; stop_spent = false; last_backup = none }) refl
                    refl gc_ticks backup_ticks,
                initialize_storage,
              )
              refl),
        started-IsReady cfg badger_dir now made db' size positive small,
      )
