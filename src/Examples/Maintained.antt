-- ===== src/Examples/Maintained.antt =====
-- The maintenance requests on a storage with one content and three backups.
use content_storage_server.Prelude.{
  ℕ, ◌≡◌, ◌⊎◌, refl, true, false, none, some, List, [], ◌∷◌, Bytes, bytes, str_eq, if◌then◌else◌,
}
use content_storage_server.Prelude.Assoc
use content_storage_server.Prelude.Assoc.{Assoc}
use content_storage_server.Storage.Error.{Error, other, ok, err}
use content_storage_server.Storage.Badger.{Item}
use content_storage_server.Storage.Access.{get_access_count}
use content_storage_server.Storage.Gc.Runs.{in_items}
use content_storage_server.Storage.Health.{get_overall_health}
use content_storage_server.Storage.Open.{Storage}
use content_storage_server.Storage.Managed.{Views}
use content_storage_server.Handlers.Maintenance.{
  badger, Health, cleanup_failed, cleaned, detailed_health_check, cleanup_access_trackers,
  create_backup,
}
use content_storage_server.Handlers.Maintenance.Answers.{
  backend, by_read, code_of, detailed_health_check_lem, cleanup_access_trackers_lem, Reported,
  create_backup-Reported,
}
use content_storage_server.Examples.{memory, plain, b_key, one_stored}
use content_storage_server.Examples.Lifecycle.{all_running}
use content_storage_server.Examples.Kept.{backups, by_time, three}

abbrev served : Storage (Assoc Bytes)
served = record { components = all_running; access_manager = one_stored.access_manager }

-- The last of three reads fails.
abbrev first_ones : Views
first_ones = record { overall = none; database = none }

detailed_health_check_example :
    (a : ℕ × Health) × (detailed_health_check memory plain
        (λ (n : ℕ). n)
        60
        first_ones
        (some (other []))
        (badger served)
      ≡ some a)
    × (a.0 ≡ by_read (some (other [])))
    × (a.0 ≡ code_of (get_overall_health 60 (some (other [])) all_running))
detailed_health_check_example =
    detailed_health_check_lem memory plain (λ (n : ℕ). n) 60 first_ones (some (other [])) served
      (record { is_running = true; stop_spent = false }) refl

-- The count of a content that is not stored.
cleanup_access_trackers_example :
    ((e : Error) × (memory.scan served.components.system.queue.db ≡ err e)
      × (cleanup_access_trackers memory plain 60 (backend ℕ served)
          ≡ (badger served, (500, cleanup_failed e))))
    ⊎ ((is : List Item) × (s2 : Storage (Assoc Bytes)) × (n : ℕ) × (memory.scan
            served.components.system.queue.db
          ≡ ok is)
        × (cleanup_access_trackers memory plain 60 (backend ℕ served)
            ≡ (badger s2, (200, cleaned n)))
        × (s2.components ≡ served.components)
        × (get_access_count s2.access_manager b_key
            ≡ (if in_items is b_key then get_access_count served.access_manager b_key else 0)))
cleanup_access_trackers_example = cleanup_access_trackers_lem memory plain 60 served b_key

abbrev all_paths : List Bytes
all_paths = bytes "x" ∷ bytes "y" ∷ bytes "z" ∷ bytes "w" ∷ []

create_backup-Reported_example :
    Reported backups memory plain
      (λ (n : ℕ). n)
      none
      (some 9)
      all_paths
      60
      (create_backup backups by_time false 7 60 (bytes "w") three (backend ℕ served))
unfolding create_backup Assoc.put str_eq
create_backup-Reported_example =
    create_backup-Reported backups memory plain (λ (n : ℕ). n) by_time false 7 60 (bytes "w") three
      served (record { is_running = true; stop_spent = false; last_backup = some 7 })
      (record { is_running = true; stop_spent = false }) none (some 9) all_paths refl refl refl refl
