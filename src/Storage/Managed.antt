-- ===== src/Storage/Managed.antt =====
-- The methods of BadgerStorage that pass on to its managers, with their reports: badger_backup.go,
-- badger_gc.go, badger_health.go and badger_queue.go of pkg/storage, GetHealthSummary of health.go and
-- GetStats of access_manager.go. Each read of the database that a health check makes has its outcome as
-- an argument. A duration stands for its text, and times since the start are left out.
use content_storage_server.Prelude.{
  ℕ, Bool, Option, none, some, List, [], ◌∷◌, Bytes, bytes, length,
}
use content_storage_server.Prelude.Int64.{Int64, add}
use content_storage_server.Prelude.Assoc.{Assoc}
use content_storage_server.Models.Content.{AccessTracker}
use content_storage_server.Storage.Error.{DbError}
use content_storage_server.Storage.Badger.{Badger, Codec}
use content_storage_server.Storage.Access.{AccessManager}
use content_storage_server.Storage.Gc.{GarbageCollector, GcRun, run_gc}
use content_storage_server.Storage.Crud.{BadgerStorage}
use content_storage_server.Storage.Close.{BackupManager, HealthMonitor, Components}
use content_storage_server.Storage.Backup.{FileInfo, BackupDirectory, BackupError, do_backup}
use content_storage_server.Storage.Health.{
  HealthStatus, check_database_health, check_backup_health, check_gc_health, get_overall_health,
}
use content_storage_server.Storage.Open.{Storage}

-- What a Go map of reports holds; an instant is none before the first.
pub data Value : Type 0 where
  int : ℕ → Value
  int64 : Int64 → Value
  instant : Option ℕ → Value
  flag : Bool → Value
  string : Bytes → Value
  strings : List Bytes → Value
  failure : Bytes → Value

abbrev pub Report : Type 0
Report = Assoc Value

-- v.(string) and v.(int64), on a key that may be missing.
abbrev pub as_string : Option Value → Option Bytes
as_string (some (string s)) = some s
as_string _ = none

abbrev pub as_int64 : Option Value → Option Int64
as_int64 (some (int64 n)) = some n
as_int64 _ = none

abbrev pub as_int : Option Value → Option ℕ
as_int (some (int n)) = some n
as_int _ = none

abbrev pub as_instant : Option Value → Option (Option ℕ)
as_instant (some (instant t)) = some t
as_instant _ = none

abbrev pub total_accesses : Assoc AccessTracker → Int64
total_accesses [] = 0
total_accesses ((k, t) ∷ m) = add t.access_count (total_accesses m)

-- `GetStats` of the access manager.
unfoldable pub get_stats : AccessManager → Report
get_stats am =
    (bytes "tracked_content_count", int (length am.access_trackers))
    ∷ (bytes "total_accesses", int64 (total_accesses am.access_trackers))
    ∷ (bytes "last_cleanup_time", instant (some am.last_cleanup_time))
    ∷ (bytes "cleanup_interval", int am.cleanup_interval)
    ∷ []

pub data BackupFailure : Type 0 where
  no_backup_manager : BackupFailure
  backup_error : BackupError → BackupFailure

-- The outcomes of the reads of one health summary, in their order.
pub record Views : Type 0 where
  pub overall : Option DbError
  pub database : Option DbError

pub record HealthSummary : Type 0 where
  pub overall_status : HealthStatus
  pub database_status : HealthStatus
  pub backup_status : HealthStatus
  pub gc_status : HealthStatus
  pub is_monitoring : Bool

abbrev gc_report : GarbageCollector → Report
gc_report g =
    (bytes "total_runs", int64 g.metrics.total_runs)
    ∷ (bytes "successful_runs", int64 g.metrics.successful_runs)
    ∷ (bytes "failed_runs", int64 g.metrics.failed_runs)
    ∷ (bytes "last_run_time", instant g.metrics.last_run_time)
    ∷ (bytes "last_run_duration", int g.metrics.last_run_duration)
    ∷ (bytes "space_reclaimed_bytes", int64 g.metrics.space_reclaimed)
    ∷ (bytes "expired_items_removed", int64 g.metrics.expired_items_removed)
    ∷ (bytes "is_running", flag g.is_running)
    ∷ []

-- `GetGCStats`.
unfoldable pub get_gc_stats : Option GarbageCollector → Report
get_gc_stats none = (bytes "error", failure (bytes "GC not initialized")) ∷ []
get_gc_stats (some g) = gc_report g

module _ {D : Type 0} where
  unfoldable pub get_health_summary : ℕ → Views → Components D → HealthMonitor → HealthSummary
  unfolding get_overall_health check_database_health check_backup_health check_gc_health
  get_health_summary now v c m = record {
    overall_status = get_overall_health now v.overall c;
    database_status = check_database_health v.database;
    backup_status = check_backup_health now c.backup_manager;
    gc_status = check_gc_health c.gc;
    is_monitoring = m.is_running;
  }

  -- `GetHealthStatus`; none for the report that there is no monitor.
  unfoldable pub get_health_status : ℕ → Views → Components D → Option HealthSummary
  unfolding get_health_summary
  get_health_status now v c = elim c.health_monitor [
    | none ↦ none
    | some m ↦ some (get_health_summary now v c m)
  ]

  -- `GetDatabaseHealthMetrics`, which fails on a storage without a monitor.
  unfoldable pub get_database_health_metrics : Option DbError → Components D → Option HealthStatus
  unfolding check_database_health
  get_database_health_metrics viewed c = elim c.health_monitor [
    | none ↦ none
    | some m ↦ some (check_database_health viewed)
  ]

  abbrev pub with_gc : Storage D → GarbageCollector → BadgerStorage D → Storage D
  with_gc s gc t = record {
    components = record s.components { gc = some gc; system = t.system };
    access_manager = t.access_manager;
  }

  -- `RunGC`, which fails on a storage without a collector.
  unfoldable pub run_storage_gc :
      {B : Type 0} → Badger D B → Codec → GcRun → Storage D → Option (Storage D × Option DbError)
  unfolding run_gc
  run_storage_gc b j r s = elim s.components.gc [
    | none ↦ none
    | some g ↦
        let ((g', t), e) =
          run_gc b j r g
            (record { system = s.components.system; access_manager = s.access_manager }) in
        some (with_gc s g' t, e)
  ]

  abbrev pub with_backup_manager : Storage D → BackupManager → Storage D
  with_backup_manager s m = record s {
    components = record s.components { backup_manager = some m };
  }

  module _ {F : Type 0} (d : BackupDirectory F) where
    -- The storage with what a backup leaves, and its error.
    abbrev pub after_backup :
        Storage D
        → (F × BackupManager) × Option BackupError
        → (F × Storage D) × Option BackupFailure
    after_backup s ((f, m), none) = ((f, with_backup_manager s m), none)
    after_backup s ((f, m), some e) = ((f, with_backup_manager s m), some (backup_error e))

    -- `CreateBackup`.
    unfoldable pub create_storage_backup :
        (List FileInfo → List FileInfo)
        → Bool
        → ℕ
        → ℕ
        → Bytes
        → F
        → Storage D
        → (F × Storage D) × Option BackupFailure
    unfolding do_backup
    create_storage_backup sort cancelled max now path f s = elim s.components.backup_manager [
      | none ↦ ((f, s), some no_backup_manager)
      | some m ↦ after_backup s (do_backup d sort cancelled max now path f m)
    ]

    -- `GetBackupStats`; none if it fails.
    unfoldable pub get_backup_stats : F → Storage D → Option Report
    get_backup_stats f s = elim s.components.backup_manager [
      | none ↦ none
      | some m ↦ (elim (d.list f) [
        | none ↦ none
        | some backups ↦ some (
            (bytes "backup_count", int (length backups))
            ∷ (bytes "last_backup_time", instant m.last_backup)
            ∷ (bytes "is_running", flag m.is_running)
            ∷ (bytes "backup_files", strings backups)
            ∷ [])
      ])
    ]
