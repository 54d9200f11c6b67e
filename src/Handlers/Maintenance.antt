-- ===== src/Handlers/Maintenance.antt =====
-- internal/handlers/health.go: the health checks, the metrics and the maintenance requests. The storage
-- is a BadgerStorage or another implementation, of which only the count is used. None stands for the
-- panic on a storage without a monitor or a collector. Timestamps, durations and log lines are left out;
-- the binding of a backup request, whose fields are only logged, has no effect.
pub mod Answers
use content_storage_server.Prelude.{
  ℕ, Bool, true, false, Option, none, some, List, Bytes, bytes, if◌then◌else◌, ◌==◌,
}
use content_storage_server.Prelude.Int64.{Int64}
use content_storage_server.Prelude.Assoc
use content_storage_server.Storage.Error.{DbError, Error, ok, err}
use content_storage_server.Storage.Badger.{Badger, Codec}
use content_storage_server.Storage.Api.{count_items_in_db, get_all_content_ids}
use content_storage_server.Storage.Access.{cleanup_expired_trackers}
use content_storage_server.Storage.Queue.{QueueMetrics, get_metrics}
use content_storage_server.Storage.Gc.{GcRun}
use content_storage_server.Storage.Health.{HealthStatus, healthy, degraded, unhealthy, status_text}
use content_storage_server.Storage.Backup.{FileInfo, BackupDirectory}
use content_storage_server.Storage.Open.{Storage}
use content_storage_server.Storage.Managed.{
  Report, as_string, as_int64, as_int, as_instant, get_stats, BackupFailure, Views, HealthSummary,
  get_gc_stats, get_health_status, get_database_health_metrics, run_storage_gc,
  create_storage_backup, get_backup_stats,
}

pub data Backend (D O : Type 0) : Type 0 where
  badger : Storage D → Backend D O
  other : O → Backend D O

-- `models.HealthResponse`: its status and what its metrics are made of.
pub data Health : Type 0 where
  alive : ℕ → Health
  detailed : HealthStatus → Option HealthSummary → QueueMetrics → Health
  basic : ℕ → Health

pub record MetricsResponse : Type 0 where
  pub content_count : ℕ
  pub database_size : Int64
  pub last_backup : Option (Option ℕ)
  pub backup_count : ℕ
  pub health_status : HealthStatus
  pub gc_stats : Option Report
  pub backup_stats : Option Report
  pub access_manager_stats : Option Report
  pub queue_metrics : Option QueueMetrics

-- `models.StorageResponse` with the data of each request.
pub data Body : Type 0 where
  synced collected : Body
  not_collected : DbError → Body
  backup_unsupported : Body
  backup_failed : BackupFailure → Body
  backup_created : Bytes → Int64 → Body
  cleanup_failed : Error → Body
  cleaned : ℕ → Body

-- The status of a health check.
unfoldable pub status_code : HealthStatus → ℕ
status_code healthy = 200
status_code degraded = 206
status_code unhealthy = 503

abbrev or_else {ℓ} : {A : Type ℓ} → A → Option A → A
or_else x none = x
or_else x (some y) = y

module _ {D B O : Type 0} (b : Badger D B) (j : Codec) (count : O → ℕ) where
  unfoldable pub count_contents : Backend D O → ℕ
  unfolding count_items_in_db
  count_contents (badger s) = count_items_in_db b j s.components.system.queue.db
  count_contents (other o) = count o

  unfoldable pub health_check : Backend D O → ℕ × Health
  unfolding count_contents
  health_check h = (200, alive (count_contents h))

  -- `last` is the outcome of the read that decides on the status.
  unfoldable pub detailed_health_check :
      ℕ → Views → Option DbError → Backend D O → Option (ℕ × Health)
  unfolding get_health_status get_database_health_metrics get_metrics status_code
  detailed_health_check now v last (other o) = some (200, basic (count o))
  detailed_health_check now v last (badger s) =
      elim (get_database_health_metrics last s.components) [
        | none ↦ none
        | some status ↦ some (
          status_code status,
          detailed status (get_health_status now v s.components)
              (get_metrics s.components.system.queue),
        )
      ]

  abbrev of_stats : (Report → Option ℕ) → Option Report → ℕ
  of_stats f none = 0
  of_stats f (some r) = or_else 0 (f r)

  abbrev time_of_stats : Option Report → Option (Option ℕ)
  time_of_stats none = none
  time_of_stats (some r) = as_instant (Assoc.get r (bytes "last_backup_time"))

  -- `GetMetrics`; `size` is what GetDatabaseSize returns.
  unfoldable pub metrics_of :
      HealthStatus → Option Report → Option Int64 → Storage D → MetricsResponse
  unfolding count_items_in_db get_gc_stats get_stats get_metrics
  metrics_of status stats size s = record {
    content_count = count_items_in_db b j s.components.system.queue.db;
    database_size = or_else 0 size;
    last_backup = time_of_stats stats;
    backup_count = of_stats (λ r. as_int (Assoc.get r (bytes "backup_count"))) stats;
    health_status = status;
    gc_stats = some (get_gc_stats s.components.gc);
    backup_stats = stats;
    access_manager_stats = some (get_stats s.access_manager);
    queue_metrics = some (get_metrics s.components.system.queue);
  }

  unfoldable pub get_metrics_response :
      {F : Type 0}
      → BackupDirectory F
      → F
      → Option DbError
      → Option Int64
      → Backend D O
      → Option MetricsResponse
  unfolding metrics_of get_database_health_metrics get_backup_stats
  get_metrics_response d f viewed size (other o) = some (record {
    content_count = count o;
    database_size = 0;
    last_backup = none;
    backup_count = 0;
    health_status = healthy;
    gc_stats = none;
    backup_stats = none;
    access_manager_stats = none;
    queue_metrics = none;
  })
  get_metrics_response d f viewed size (badger s) =
      elim (get_database_health_metrics viewed s.components) [
        | none ↦ none
        | some status ↦ some (metrics_of status (get_backup_stats d f s) size s)
      ]

-- `TriggerSync`, which does nothing.
unfoldable pub trigger_sync : {S : Type 0} → S → S × (ℕ × Body)
trigger_sync h = (h, (200, synced))

abbrev pub of_gc : Option DbError → ℕ × Body
of_gc none = (200, collected)
of_gc (some e) = (500, not_collected e)

module _ {D B O : Type 0} (b : Badger D B) (j : Codec) where
  unfoldable pub trigger_gc : GcRun → Backend D O → Option (Backend D O × (ℕ × Body))
  unfolding run_storage_gc
  trigger_gc r (other o) = some (other o, (200, collected))
  trigger_gc r (badger s) = elim (run_storage_gc b j r s) [
    | none ↦ none
    | some (s', e) ↦ some (badger s', of_gc e)
  ]

  -- Only for an existing content its count is kept; `now` is the time of the cleanup.
  unfoldable pub cleanup_access_trackers : ℕ → Backend D O → Backend D O × (ℕ × Body)
  unfolding get_all_content_ids cleanup_expired_trackers
  cleanup_access_trackers now (other o) = (other o, (200, cleaned 0))
  cleanup_access_trackers now (badger s) =
      elim (get_all_content_ids b j s.components.system.queue.db) [
        | err e ↦ (badger s, (500, cleanup_failed e))
        | ok ids ↦
            let (am, removed) = cleanup_expired_trackers s.access_manager ids now in
            (badger (record s { access_manager = am }), (200, cleaned removed))
      ]

-- The path and the size that the statistics give.
abbrev pub backup_path : Option Report → Bytes
backup_path none = bytes ""
backup_path (some r) = or_else (bytes "") (as_string (Assoc.get r (bytes "last_backup_path")))

abbrev pub backup_size : Option Report → Int64
backup_size none = 0
backup_size (some r) = or_else 0 (as_int64 (Assoc.get r (bytes "last_backup_size")))

module _ {D O F : Type 0} (d : BackupDirectory F) where
  -- The answer to a backup, with its statistics.
  abbrev pub answer_backup : (F × Storage D) × Option BackupFailure → (F × Backend D O) × (ℕ × Body)
  answer_backup ((f, s), some e) = ((f, badger s), (500, backup_failed e))
  answer_backup ((f, s), none) =
      let stats = get_backup_stats d f s in
      ((f, badger s), (200, backup_created (backup_path stats) (backup_size stats)))

  unfoldable pub create_backup :
      (List FileInfo → List FileInfo)
      → Bool
      → ℕ
      → ℕ
      → Bytes
      → F
      → Backend D O
      → (F × Backend D O) × (ℕ × Body)
  unfolding create_storage_backup get_backup_stats
  create_backup sort cancelled max now path f (other o) = ((f, other o), (501, backup_unsupported))
  create_backup sort cancelled max now path f (badger s) =
      answer_backup (create_storage_backup d sort cancelled max now path f s)
