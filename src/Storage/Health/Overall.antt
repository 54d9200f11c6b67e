-- ===== src/Storage/Health/Overall.antt =====
-- What the overall health of pkg/storage/health.go says of the components.
use content_storage_server.Prelude.{
  ℕ, ◌≡◌, refl, Bool, false, not, ◌&&◌, Option, none, some, arith, if◌then◌else◌,
}
use content_storage_server.Storage.Error.{DbError}
use content_storage_server.Storage.Gc.{GarbageCollector}
use content_storage_server.Storage.Close.{BackupManager, Components}
use content_storage_server.Storage.Health.{
  healthy, degraded, unhealthy, is_old, check_backup_health, check_gc_health, check_database_health,
  get_overall_health,
}

-- A backup manager that runs, and whose last backup, if there is one, is at most 48 hours old.
abbrev pub backups_well : ℕ → Option BackupManager → Bool
backups_well now none = false
backups_well now (some m) = m.is_running && not (is_old now m.last_backup)

abbrev pub collects : Option GarbageCollector → Bool
collects none = false
collects (some g) = g.is_running

-- The storage is unhealthy exactly if the database cannot be read; otherwise it is healthy if a
-- collector runs and a backup manager runs whose last backup, if there is one, is at most 48
-- hours old, and degraded if not.
pub get_overall_health_lem :
    {D : Type 0} (now : ℕ) (viewed : Option DbError) (c : Components D)
    → get_overall_health now viewed c ≡ (elim viewed [
      | some e ↦ unhealthy
      | none ↦ if backups_well now c.backup_manager && collects c.gc then healthy else degraded
    ])
unfolding get_overall_health check_backup_health check_gc_health check_database_health
get_overall_health_lem now viewed c = by_parts viewed c.backup_manager c.gc
  where
    by_parts :
        (v : Option DbError) (m : Option BackupManager) (g : Option GarbageCollector)
        → get_overall_health now v (record c { backup_manager = m; gc = g }) ≡ (elim v [
          | some e ↦ unhealthy
          | none ↦ if backups_well now m && collects g then healthy else degraded
        ])
    by_parts (some e) m g = refl
    by_parts none none none = refl
    by_parts none none (some g) = ground arith
    by_parts none (some m) none = ground arith
    by_parts none (some m) (some g) = ground arith
