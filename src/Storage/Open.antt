-- ===== src/Storage/Open.antt =====
-- How the storage is opened and started: pkg/storage/badger_init.go, the options of badger.go and
-- `initializeStorage` of cmd/server/main.go. badger.Open, the making of a directory and the recovery
-- are arguments; the tuning options of BadgerDB, the cache warm-up and the first collection, which only
-- concern its speed, are left out.
pub mod Ready
use content_storage_server.Prelude.{
  ℕ, zero, suc, ◌+◌, ◌*◌, Bool, true, false, Option, none, some, List, [], ◌∷◌, ◌++◌, Bytes, bytes,
  is_empty, is_nil, ltb, ◌==◌, if◌then◌else◌,
}
use content_storage_server.Prelude.Int64.{Int64, slt}
use content_storage_server.Config.{Config}
use content_storage_server.Storage.Error.{DbError}
use content_storage_server.Storage.Access.{AccessManager, new_access_manager}
use content_storage_server.Storage.Queue.{Queue, new_queued_write_batch, set_max_multiplier}
use content_storage_server.Storage.Queue.Worker.{System, running}
use content_storage_server.Storage.Gc.{
  GarbageCollector, new_garbage_collector, set_interval, start_internal,
}
use content_storage_server.Storage.Close.{
  BackupManager, HealthMonitor, Components, RestartError, start_backups, start_health,
}

pub record BadgerOptions (F : Type 0) : Type 0 where
  pub data_dir : Bytes
  pub gc_interval : Int64
  pub backup_dir : Bytes
  pub backup_interval : Int64
  pub max_backups : Int64
  pub enable_adaptive_gc : Bool
  pub low_traffic_hours : List ℕ
  pub gc_threshold : F
  pub performance_mode : Bool
  pub cache_size : Int64
  pub enable_cache_warmup : Bool
  pub write_queue_size : Int64
  pub write_queue_batch_size : Int64
  pub write_queue_batch_timeout : Int64
  pub write_queue_max_multiplier : Int64
  pub cache_ttl : Int64

abbrev pub or_default : Int64 → Int64 → Int64
or_default x d = if x == 0 then d else x

abbrev pub or_text : Bytes → Bytes → Bytes
or_text s d = if is_empty s then d else s

-- The defaults that `NewBadgerStorage` fills in; times are in nanoseconds.
unfoldable pub with_defaults : {F : Type 0} → BadgerOptions F → BadgerOptions F
with_defaults o = record o {
  data_dir = or_text o.data_dir (bytes "data/badger");
  backup_dir = or_text o.backup_dir (bytes "backups");
  backup_interval = or_default o.backup_interval 21600000000000;
  max_backups = or_default o.max_backups 7;
  cache_ttl = or_default o.cache_ttl 300000000000;
  write_queue_size = or_default o.write_queue_size 10000;
  write_queue_batch_size = or_default o.write_queue_batch_size 100;
  write_queue_batch_timeout = or_default o.write_queue_batch_timeout 10000000;
  write_queue_max_multiplier = or_default o.write_queue_max_multiplier 10;
}

-- The pause after a failed attempt: 100 ms for each attempt so far, at most 5 s.
unfoldable pub retry_delay : ℕ → ℕ
retry_delay attempt =
    let delay = attempt * 100000000 in if ltb 5000000000 delay then 5000000000 else delay

pub data Opened (D : Type 0) : Type 0 where
  database : D → Opened D
  not_opened : DbError → Opened D

-- The attempts from number `attempt` on, when `left` follow it, with the pauses between them.
unfoldable pub open_from : {D : Type 0} → (ℕ → Opened D) → ℕ → ℕ → Opened D × List ℕ
unfolding retry_delay
open_from open_db zero attempt = (open_db attempt, [])
open_from open_db (suc left) attempt =
    let rest = open_from open_db left (attempt + 1) in
    elim (open_db attempt) [
      | database db ↦ (database db, [])
      | not_opened e ↦ (rest.0, retry_delay attempt ∷ rest.1)
    ]

-- Five attempts.
unfoldable pub open_database : {D : Type 0} → (ℕ → Opened D) → Opened D × List ℕ
unfolding open_from
open_database open_db = open_from open_db 4 1

module _ {F : Type 0} where
  -- The options of the collector; its threshold is BadgerDB's.
  unfoldable pub configure_gc : BadgerOptions F → GarbageCollector → GarbageCollector
  unfolding set_interval
  configure_gc o gc =
      let gc1 = if slt 0 o.gc_interval then set_interval o.gc_interval gc else gc in
      if o.enable_adaptive_gc
      then record gc1 {
        adaptive_schedule = true;
        low_traffic_hours =
            if is_nil o.low_traffic_hours then gc1.low_traffic_hours else o.low_traffic_hours;
      }
      else gc1

  unfoldable pub initialize_queued_writes : {D : Type 0} → BadgerOptions F → D → Queue D
  unfolding new_queued_write_batch set_max_multiplier
  initialize_queued_writes o db =
      set_max_multiplier (new_queued_write_batch db o.write_queue_size o.write_queue_batch_size)
        o.write_queue_max_multiplier

pub data OpenError : Type 0 where
  failed_to_open : DbError → OpenError
  no_recovery_directory : OpenError

-- The storage with its access counts.
pub record Storage (D : Type 0) : Type 0 where
  pub components : Components D
  pub access_manager : AccessManager

-- `panicked` is the end of the process by a ticker without a positive period.
pub data Created (D : Type 0) : Type 0 where
  created : Storage D → Created D
  not_created : OpenError → Created D
  panicked : Created D

abbrev pub with_recovered : {D : Type 0} → (Queue D → Queue D) → Storage D → Storage D
with_recovered recover s = record s {
  components = record s.components {
    system = record s.components.system { queue = recover s.components.system.queue };
  };
}

-- The options that the server passes on.
unfoldable pub server_options : {F : Type 0} → Config F → Bytes → BadgerOptions F
server_options cfg badger_dir = record {
  data_dir = badger_dir;
  gc_interval = cfg.gc_interval;
  backup_dir = cfg.backup_dir;
  backup_interval = cfg.backup_interval;
  max_backups = cfg.max_backups;
  enable_adaptive_gc = cfg.enable_adaptive_gc;
  low_traffic_hours = 2 ∷ 3 ∷ 4 ∷ 5 ∷ [];
  gc_threshold = cfg.gc_threshold;
  performance_mode = cfg.performance_mode;
  cache_size = cfg.cache_size;
  enable_cache_warmup = cfg.enable_cache_warmup;
  write_queue_size = cfg.write_queue_size;
  write_queue_batch_size = cfg.write_queue_batch_size;
  write_queue_batch_timeout = cfg.write_queue_batch_timeout;
  write_queue_max_multiplier = 0;
  cache_ttl = 300000000000;
}

module _ {F D : Type 0} where
  -- What is built around an open database, at the time `now`.
  unfoldable pub build : BadgerOptions F → ℕ → D → Storage D
  unfolding configure_gc initialize_queued_writes new_garbage_collector new_access_manager
  build o now db = record {
    components = record {
      gc = some (configure_gc o new_garbage_collector);
      backup_manager = some (record { is_running = false; stop_spent = false; last_backup = none });
      health_monitor = some (record { is_running = false; stop_spent = false });
      system = record {
        queue = initialize_queued_writes o db;
        batch = [];
        timer = false;
        phase = running;
      };
      is_closed = false;
    };
    access_manager = new_access_manager now;
  }

  -- `prepared` is whether the directory of emergency recoveries could be made.
  unfoldable pub new_badger_storage : BadgerOptions F → ℕ → (ℕ → Opened D) → Bool → Created D
  unfolding with_defaults open_database build
  new_badger_storage opts now open_db prepared = elim (open_database open_db).0 [
    | not_opened e ↦ not_created (failed_to_open e)
    | database db ↦
        if prepared
        then created (build (with_defaults opts) now db)
        else not_created no_recovery_directory
  ]

  -- The recovery reports its error, and the storage is kept.
  unfoldable pub new_badger_storage_with_recovery :
      BadgerOptions F → Bool → (Queue D → Queue D) → ℕ → (ℕ → Opened D) → Bool → Created D
  unfolding new_badger_storage
  new_badger_storage_with_recovery opts enabled recover now open_db prepared =
      elim (new_badger_storage opts now open_db prepared) [
        | not_created e ↦ not_created e
        | panicked ↦ panicked
        | created s ↦ created (if enabled then with_recovered recover s else s)
      ]

-- `StartGCLoop`, of badger_gc.go; none if the ticker of the loop panics.
unfoldable pub start_gc_loop : Int64 → GarbageCollector → Option GarbageCollector
unfolding set_interval start_internal
start_gc_loop d gc = if slt 0 d then some (start_internal (set_interval d gc)) else none

-- `StartBackups`; the server goes on if backups do not start, and none is the panic of their ticker.
unfoldable pub start_backup : Bool → Int64 → BackupManager → Option BackupManager
unfolding start_backups
start_backup made interval m =
    let (m', failed) = start_backups made m in
    elim failed [ some e ↦ some m' | none ↦ if slt 0 interval then some m' else none ]

-- A component that is there is started.
abbrev start_some {ℓ} : {A : Type ℓ} → (A → Option A) → Option A → Option (Option A)
start_some start none = some none
start_some start (some x) = elim (start x) [ none ↦ none | some y ↦ some (some y) ]

-- `StartHealthMonitoring`.
abbrev pub start_monitor : Option HealthMonitor → Option HealthMonitor
start_monitor none = none
start_monitor (some m) = some (start_health m)

module _ {F D : Type 0} where
  -- The interval of the backups is the one with its default.
  unfoldable pub start_storage : Config F → Bool → Storage D → Option (Storage D)
  unfolding start_gc_loop start_backup start_health
  start_storage cfg made s = elim (start_some (start_gc_loop cfg.gc_interval) s.components.gc) [
    | none ↦ none
    | some gc ↦
        elim (start_some (start_backup made (or_default cfg.backup_interval 21600000000000))
          s.components.backup_manager) [
            | none ↦ none
            | some backup ↦ some (record s {
              components = record s.components {
                gc = gc;
                backup_manager = backup;
                health_monitor = start_monitor s.components.health_monitor;
              };
            })
          ]
  ]

  -- `initializeStorage` of the server; `made` is whether the directory of backups is there.
  unfoldable pub initialize_storage :
      Config F → Bytes → (Queue D → Queue D) → ℕ → (ℕ → Opened D) → Bool → Bool → Created D
  unfolding new_badger_storage_with_recovery server_options start_storage
  initialize_storage cfg badger_dir recover now open_db prepared made =
      elim (new_badger_storage_with_recovery (server_options cfg badger_dir)
        cfg.enable_emergency_recovery recover now open_db prepared) [
          | not_created e ↦ not_created e
          | panicked ↦ panicked
          | created s ↦ elim (start_storage cfg made s) [ none ↦ panicked | some s' ↦ created s' ]
        ]
