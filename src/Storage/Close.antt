-- ===== src/Storage/Close.antt =====
-- pkg/storage/badger_close.go: the shutdown of the components one after the other, its verification and
-- the restart, with `Start` and `Stop` of backup.go and health.go. A stop that is late goes on in its
-- goroutine, and may have run or not when the shutdown returns; prints and pauses are left out.
pub mod Stops
use content_storage_server.Prelude.{
  ℕ, Bool, true, false, not, ◌&&◌, Option, none, some, List, [], ◌∷◌, ◌++◌, Bytes, bytes,
  if◌then◌else◌,
}
use content_storage_server.Storage.Badger.{Badger, Codec}
use content_storage_server.Storage.Error.{DbError, Error}
use content_storage_server.Storage.Queue.{is_running}
use content_storage_server.Storage.Queue.Worker.{System, Event}
use content_storage_server.Storage.Queue.Flush.{simple_flush, stop}
use content_storage_server.Storage.Gc.{GarbageCollector, start_internal, stop_gc}

-- `stop_spent` is whether `stopOnce` was used; `last_backup` is none before the first backup.
pub record BackupManager : Type 0 where
  pub is_running : Bool
  pub stop_spent : Bool
  pub last_backup : Option ℕ

pub record HealthMonitor : Type 0 where
  pub is_running : Bool
  pub stop_spent : Bool

pub data Component : Type 0 where
  health_component backup_component gc_component queue_component : Component

pub data ShutdownError : Type 0 where
  shutdown_timeout : Component → ShutdownError
  queue_flush_timeout : Error → ShutdownError
  database_close_error : DbError → ShutdownError
  database_close_timeout : ShutdownError

pub data RestartError : Type 0 where
  database_closed still_running already_running no_backup_directory : RestartError

-- How the stop of a component ends for `stopComponentWithTimeout`: in time, or after its timeout, and
-- then the stop has run when the shutdown returns, or has not yet.
pub data Stopping : Type 0 where
  in_time late_done late_undone : Stopping

abbrev pub has_run : Stopping → Bool
has_run late_undone = false
has_run _ = true

abbrev pub is_late : Stopping → Bool
is_late in_time = false
is_late _ = true

-- What db.Close comes to within its 30 seconds.
pub data CloseOutcome : Type 0 where
  closed_well closed_late : CloseOutcome
  closed_badly : DbError → CloseOutcome

-- The parts of `BadgerStorage` that are stopped; none is a nil pointer.
pub record Components (D : Type 0) : Type 0 where
  pub gc : Option GarbageCollector
  pub backup_manager : Option BackupManager
  pub health_monitor : Option HealthMonitor
  pub system : System D
  pub is_closed : Bool

-- `BackupManager.Start`; `made` is whether its directory is there.
unfoldable pub start_backups : Bool → BackupManager → BackupManager × Option RestartError
start_backups made bm =
    if bm.is_running
    then (bm, some already_running)
    else if not made
    then (bm, some no_backup_directory)
    else (record bm { is_running = true }, none)

-- `BackupManager.Stop`.
unfoldable pub stop_backups : BackupManager → BackupManager
stop_backups bm = if bm.stop_spent then bm else record bm { is_running = false; stop_spent = true }

-- `HealthMonitor.Start`.
unfoldable pub start_health : HealthMonitor → HealthMonitor
start_health hm = if hm.is_running then hm else record hm { is_running = true }

-- `HealthMonitor.Stop`.
unfoldable pub stop_health : HealthMonitor → HealthMonitor
stop_health hm = if hm.stop_spent then hm else record { is_running = false; stop_spent = true }

-- `SetCheckInterval`: a monitor that runs is stopped and started; its interval is only a delay.
unfoldable pub set_check_interval : HealthMonitor → HealthMonitor
unfolding start_health stop_health
set_check_interval hm = if hm.is_running then start_health (stop_health hm) else hm

-- `stopComponent` of each component: nothing if it is nil, or stopped.
unfoldable pub stop_if_running {ℓ} : {A : Type ℓ} → (A → Bool) → (A → A) → Option A → Option A
stop_if_running running stop_it none = none
stop_if_running running stop_it (some a) = if running a then some (stop_it a) else some a

abbrev pub timeout_of : Bool → Component → List ShutdownError
timeout_of late c = if late then shutdown_timeout c ∷ [] else []

abbrev pub flush_errors : Option Error → List ShutdownError
flush_errors none = []
flush_errors (some e) = queue_flush_timeout e ∷ []

-- `isComponentStopped`.
unfoldable pub is_stopped {ℓ} : {A : Type ℓ} → (A → Bool) → Option A → Bool
is_stopped running none = true
is_stopped running (some a) = not (running a)

abbrev all_true : List (Bytes × Bool) → Bool
all_true [] = true
all_true ((name, stopped) ∷ rest) = stopped && all_true rest

module _ {D : Type 0} where
  unfoldable pub verify_clean_shutdown : Components D → List (Bytes × Bool)
  unfolding is_stopped is_running
  verify_clean_shutdown c =
      (bytes "garbage_collector", is_stopped (λ (g : GarbageCollector). g.is_running) c.gc)
      ∷ (bytes "backup_manager", is_stopped (λ (m : BackupManager). m.is_running) c.backup_manager)
      ∷ (bytes "health_monitor", is_stopped (λ (m : HealthMonitor). m.is_running) c.health_monitor)
      ∷ (bytes "queued_writes", not (is_running c.system.queue))
      ∷ []

  unfoldable pub is_fully_shutdown : Components D → Bool
  unfolding verify_clean_shutdown
  is_fully_shutdown c = all_true (verify_clean_shutdown c)

  -- The first three steps, of which only those stops take effect that have run.
  unfoldable pub stop_background : (Component → Stopping) → Components D → Components D
  unfolding stop_if_running stop_health stop_backups
  stop_background stops c = record c {
    health_monitor =
        if has_run (stops health_component)
        then stop_if_running (λ (m : HealthMonitor). m.is_running) stop_health c.health_monitor
        else c.health_monitor;
    backup_manager =
        if has_run (stops backup_component)
        then stop_if_running (λ (m : BackupManager). m.is_running) stop_backups c.backup_manager
        else c.backup_manager;
    gc =
        if has_run (stops gc_component)
        then stop_if_running (λ (g : GarbageCollector). g.is_running) stop_gc c.gc
        else c.gc;
  }

  -- The components that are started again, in their order; the queue is not.
  unfoldable pub start_components : Bool → Components D → Components D × Option RestartError
  unfolding start_backups start_health start_internal
  start_components made c =
      let gc' : Option GarbageCollector = elim c.gc [
        | none ↦ none
        | some g ↦ some (start_internal g)
      ] in
      let health' : Option HealthMonitor = elim c.health_monitor [
        | none ↦ none
        | some m ↦ some (start_health m)
      ] in
      let c' = record c { gc = gc'; health_monitor = health' } in
      elim c.backup_manager [
        | none ↦ (c', none)
        | some m ↦ let (m', e) = start_backups made m in (record c' { backup_manager = some m' }, e)
      ]

  unfoldable pub restart : Bool → Components D → Components D × Option RestartError
  unfolding start_components is_fully_shutdown
  restart made c =
      if c.is_closed
      then (c, some database_closed)
      else if not (is_fully_shutdown c)
      then (c, some still_running)
      else start_components made c

module _ {D B : Type 0} (b : Badger D B) (j : Codec) where
  -- The stop of the queue, after the flush; nothing yet if it has not run.
  unfoldable pub stop_queue_worker : Stopping → List Event → System D → System D
  stop_queue_worker stopping es y =
      if has_run stopping && is_running y.queue then stop b j es y else y

  -- `executeSequentialShutdown`: what the worker does during the flush and during its stop, and how the
  -- stops end. None if the flush does not return.
  unfoldable pub execute_sequential_shutdown :
      List Event
      → List Event
      → (Component → Stopping)
      → Components D
      → Option (Components D × List ShutdownError)
  unfolding stop_background stop_queue_worker
  execute_sequential_shutdown es es' stops c =
      let c' = stop_background stops c in
      elim (simple_flush b j es c'.system) [
        | none ↦ none
        | some (y, e) ↦ some (
          record c' { system = stop_queue_worker (stops queue_component) es' y },
          timeout_of (is_late (stops health_component)) health_component
              ++ timeout_of (is_late (stops backup_component)) backup_component
              ++ timeout_of (is_late (stops gc_component)) gc_component
              ++ flush_errors e
              ++ timeout_of (is_late (stops queue_component)) queue_component,
        )
      ]

  -- `CloseWithTimeout`; the storage is marked as closed only if the database was.
  unfoldable pub after_shutdown :
      CloseOutcome → Components D × List ShutdownError → Components D × List ShutdownError
  after_shutdown closed_well (c, errors) = (record c { is_closed = true }, errors)
  after_shutdown closed_late (c, errors) = (c, errors ++ database_close_timeout ∷ [])
  after_shutdown (closed_badly e) (c, errors) = (c, errors ++ database_close_error e ∷ [])

  unfoldable pub close_with_timeout :
      List Event
      → List Event
      → (Component → Stopping)
      → CloseOutcome
      → Components D
      → Option (Components D × List ShutdownError)
  unfolding execute_sequential_shutdown after_shutdown
  close_with_timeout es es' stops outcome c = elim (execute_sequential_shutdown es es' stops c) [
    | none ↦ none
    | some r ↦ some (after_shutdown outcome r)
  ]
