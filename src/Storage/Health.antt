-- ===== src/Storage/Health.antt =====
-- pkg/storage/health.go: the health of the database, the backups and the collector, and of all together.
-- The outcome of an empty read transaction and the clock are arguments.
pub mod Overall
use content_storage_server.Prelude.{
  ℕ, ◌+◌, Bool, true, false, not, ◌||◌, Option, none, some, Bytes, bytes, ltb, if◌then◌else◌,
}
use content_storage_server.Storage.Error.{DbError}
use content_storage_server.Storage.Gc.{GarbageCollector}
use content_storage_server.Storage.Close.{BackupManager, Components}

pub data HealthStatus : Type 0 where
  healthy degraded unhealthy : HealthStatus

unfoldable pub status_text : HealthStatus → Bytes
status_text healthy = bytes "healthy"
status_text degraded = bytes "degraded"
status_text unhealthy = bytes "unhealthy"

abbrev pub is_degraded : HealthStatus → Bool
is_degraded healthy = false
is_degraded degraded = true
is_degraded unhealthy = false

abbrev pub is_unhealthy : HealthStatus → Bool
is_unhealthy healthy = false
is_unhealthy degraded = false
is_unhealthy unhealthy = true

-- What db.View returned.
unfoldable pub check_database_health : Option DbError → HealthStatus
check_database_health none = healthy
check_database_health (some e) = unhealthy

-- More than 48 hours, in nanoseconds, after the last backup.
abbrev pub is_old : ℕ → Option ℕ → Bool
is_old now none = false
is_old now (some t) = ltb (t + 172800000000000) now

unfoldable pub check_backup_health : ℕ → Option BackupManager → HealthStatus
check_backup_health now none = degraded
check_backup_health now (some m) =
    if not m.is_running then degraded else if is_old now m.last_backup then degraded else healthy

unfoldable pub check_gc_health : Option GarbageCollector → HealthStatus
check_gc_health none = unhealthy
check_gc_health (some g) = if not g.is_running then degraded else healthy

unfoldable pub get_overall_health : {D : Type 0} → ℕ → Option DbError → Components D → HealthStatus
unfolding check_database_health check_backup_health check_gc_health
get_overall_health now viewed c =
    if is_unhealthy (check_database_health viewed)
    then unhealthy
    else if is_unhealthy (check_backup_health now c.backup_manager)
    then degraded
    else if is_unhealthy (check_gc_health c.gc)
    then degraded
    else if is_degraded (check_backup_health now c.backup_manager)
        || is_degraded (check_gc_health c.gc)
    then degraded
    else healthy
