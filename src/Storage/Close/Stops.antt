-- ===== src/Storage/Close/Stops.antt =====
-- What the shutdown of pkg/storage/badger_close.go stops, the first time and after a restart.
use content_storage_server.Prelude.{
  ◌≡◌, refl, sym, ap, ◌∙◌, inl, inr, Bool, true, false, not, ◌&&◌, Option, none, some, List, ◌++◌,
  arith, subst, Option-cases, if◌then◌else◌,
}
use content_storage_server.Storage.Badger.{Badger, Codec}
use content_storage_server.Storage.Error.{Error}
use content_storage_server.Storage.Queue.{is_running}
use content_storage_server.Storage.Queue.Worker.{System, Event}
use content_storage_server.Storage.Queue.Worker.Stable.{stopped_Stable}
use content_storage_server.Storage.Queue.Worker.Ends.{stop_worker-Stable}
use content_storage_server.Storage.Queue.Flush.{simple_flush, stop, close_queue}
use content_storage_server.Storage.Gc.{GarbageCollector, start_internal, stop_internal, stop_gc}
use content_storage_server.Storage.Close.{
  BackupManager, HealthMonitor, Component, ShutdownError, RestartError, Components, stop_backups,
  stop_health, stop_if_running, is_stopped, verify_clean_shutdown, is_fully_shutdown,
  stop_background, start_components, restart, stop_queue_worker, execute_sequential_shutdown,
  timeout_of, flush_errors, Stopping, in_time, late_done, late_undone, has_run, is_late,
  health_component, backup_component, gc_component, queue_component,
}

-- A component that runs was not stopped before.
abbrev pub IsFresh {ℓ} : {A : Type ℓ} → (A → Bool) → (A → Bool) → Option A → Type 0
IsFresh running spent none = Unit {0}
IsFresh running spent (some a) = (running a && spent a) ≡ false

gc-stopped :
    (o : Option GarbageCollector)
    → IsFresh (λ (g : GarbageCollector). g.is_running) (λ g. g.stop_spent) o
    → is_stopped
        (λ (g : GarbageCollector). g.is_running)
        (stop_if_running (λ (g : GarbageCollector). g.is_running) stop_gc o)
      ≡ true
unfolding is_stopped stop_if_running stop_gc stop_internal
gc-stopped none h = refl
gc-stopped (some g) h = ground (arith, h)

backup-stopped :
    (o : Option BackupManager)
    → IsFresh (λ (m : BackupManager). m.is_running) (λ m. m.stop_spent) o
    → is_stopped
        (λ (m : BackupManager). m.is_running)
        (stop_if_running (λ (m : BackupManager). m.is_running) stop_backups o)
      ≡ true
unfolding is_stopped stop_if_running stop_backups
backup-stopped none h = refl
backup-stopped (some m) h = ground (arith, h)

health-stopped :
    (o : Option HealthMonitor)
    → IsFresh (λ (m : HealthMonitor). m.is_running) (λ m. m.stop_spent) o
    → is_stopped
        (λ (m : HealthMonitor). m.is_running)
        (stop_if_running (λ (m : HealthMonitor). m.is_running) stop_health o)
      ≡ true
unfolding is_stopped stop_if_running stop_health
health-stopped none h = refl
health-stopped (some m) h = ground (arith, h)

module _ {D B : Type 0} (b : Badger D B) (j : Codec) where
  stop-stopped :
      (es : List Event) (y : System D)
      → y.queue.stopped ≡ false
      → (stop b j es y).queue.stopped ≡ true
  unfolding stop close_queue
  stop-stopped es y runs = stop_worker-Stable b j (stopped_Stable b j) y es runs refl

  queue-stopped :
      (stopping : Stopping) (es : List Event) (y : System D)
      → has_run stopping ≡ true
      → is_running (stop_queue_worker b j stopping es y).queue ≡ false
  unfolding stop_queue_worker is_running
  queue-stopped stopping es y ran = rw ran (by_state y.queue.stopped refl)
    where
      by_state :
          (t : Bool)
          → y.queue.stopped ≡ t
          → not (if true && not t then stop b j es y else y).queue.stopped ≡ false
      by_state true over = ap not over
      by_state false runs = ap not (stop-stopped es y runs)

  -- Each component that runs was not stopped before.
  pub record IsFirst (c : Components D) : Type 0 where
    pub gc_first : IsFresh (λ (g : GarbageCollector). g.is_running) (λ g. g.stop_spent) c.gc
    pub backup_first :
        IsFresh (λ (m : BackupManager). m.is_running) (λ m. m.stop_spent) c.backup_manager
    pub health_first :
        IsFresh (λ (m : HealthMonitor). m.is_running) (λ m. m.stop_spent) c.health_monitor

  -- A shutdown that returns has stopped the background components, and the queue after its flush.
  shutdown_result :
      (es es' : List Event) (stops : Component → Stopping) (c c' : Components D)
      (errors : List ShutdownError)
      → execute_sequential_shutdown b j es es' stops c ≡ some (c', errors)
      → (y : System D) × (c' ≡ record (stop_background stops c) {
        system = stop_queue_worker b j (stops queue_component) es' y;
      })
  unfolding execute_sequential_shutdown
  shutdown_result es es' stops c c' errors h = by_flush (simple_flush b j es d.system) h
    where
      d : Components D
      d = stop_background stops c

      after_flush : Option (System D × Option Error) → Option (Components D × List ShutdownError)
      after_flush none = none
      after_flush (some (y, e)) = some (
        record d { system = stop_queue_worker b j (stops queue_component) es' y },
        timeout_of (is_late (stops health_component)) health_component
            ++ timeout_of (is_late (stops backup_component)) backup_component
            ++ timeout_of (is_late (stops gc_component)) gc_component
            ++ flush_errors e
            ++ timeout_of (is_late (stops queue_component)) queue_component,
      )

      by_flush :
          (o : Option (System D × Option Error))
          → after_flush o ≡ some (c', errors)
          → (y : System D) × (c'
              ≡ record d { system = stop_queue_worker b j (stops queue_component) es' y })
      by_flush none h = absurd (cc h)
      by_flush (some (y, e)) h = (y, cc h)

  -- If no component that runs was stopped before, then after a shutdown that returns, whatever
  -- the worker did meanwhile, the storage is fully shut down if every stop, in time or late, has
  -- run by then.
  pub first_shutdown_stops :
      (es es' : List Event) (stops : Component → Stopping) (c c' : Components D)
      (errors : List ShutdownError)
      → IsFirst c
      → ((x : Component) → has_run (stops x) ≡ true)
      → execute_sequential_shutdown b j es es' stops c ≡ some (c', errors)
      → is_fully_shutdown c' ≡ true
  unfolding execute_sequential_shutdown is_fully_shutdown verify_clean_shutdown stop_background
  first_shutdown_stops es es' stops c c' errors first ran h =
      let (y, same) = shutdown_result es es' stops c c' errors h in
      subst (λ (x : Components D). is_fully_shutdown x ≡ true) (sym same)
        (ground (
          arith,
          ran gc_component,
          ran backup_component,
          ran health_component,
          gc-stopped c.gc first.gc_first,
          backup-stopped c.backup_manager first.backup_first,
          health-stopped c.health_monitor first.health_first,
          queue-stopped (stops queue_component) es' y (ran queue_component),
        ))

  started-gc :
      (made : Bool) (c : Components D) (g : GarbageCollector)
      → c.gc ≡ some g
      → (start_components made c).0.gc ≡ some (start_internal g)
  unfolding start_components
  started-gc made c g e = elim (Option-cases c.backup_manager) [
    | inl x ↦ rw (x, start_components) (rw (e, start_components) refl)
    | inr (m, x) ↦ rw (x, start_components) (rw (e, start_components) refl)
  ]

  restarted :
      (made : Bool) (c : Components D)
      → c.is_closed ≡ false
      → is_fully_shutdown c ≡ true
      → restart made c ≡ start_components made c
  unfolding restart
  restarted made c open_db complete = ground (arith, open_db, complete)

  -- Whether the collector has stopped after the step of the shutdown that stops it.
  abbrev gc_stops : Stopping → Option GarbageCollector → Bool
  gc_stops stopping o =
      is_stopped (λ (g : GarbageCollector). g.is_running)
        (if has_run stopping
          then stop_if_running (λ (g : GarbageCollector). g.is_running) stop_gc o
          else o)

  spent_runs :
      (stopping : Stopping) (g : GarbageCollector)
      → g.stop_spent ≡ true
      → gc_stops stopping (some (start_internal g)) ≡ false
  unfolding is_stopped stop_if_running stop_gc start_internal
  spent_runs in_time g spent = ground (arith, spent)
  spent_runs late_done g spent = ground (arith, spent)
  spent_runs late_undone g spent = ground (arith, spent)

  -- From a full shutdown with the database open, if the collector had been stopped once: when the
  -- storage is restarted and shut down again, and this shutdown returns, the storage is not fully
  -- shut down.
  pub second_shutdown_leaves :
      (es es' : List Event) (stops : Component → Stopping) (made : Bool) (c c' : Components D)
      (g : GarbageCollector) (errors : List ShutdownError)
      → c.gc ≡ some g
      → g.stop_spent ≡ true
      → c.is_closed ≡ false
      → is_fully_shutdown c ≡ true
      → execute_sequential_shutdown b j es es' stops (restart made c).0 ≡ some (c', errors)
      → is_fully_shutdown c' ≡ false
  unfolding is_fully_shutdown verify_clean_shutdown stop_background
  second_shutdown_leaves es es' stops made c c' g errors e spent open_db complete h =
      let (y, same) = shutdown_result es es' stops (restart made c).0 c' errors h in
      let left : gc_stops (stops gc_component) (restart made c).0.gc ≡ false =
        ap (λ (r : Components D × Option RestartError). gc_stops (stops gc_component) r.0.gc)
          (restarted made c open_db complete)
        ∙ ap (gc_stops (stops gc_component)) (started-gc made c g e)
        ∙ spent_runs (stops gc_component) g spent in
      subst (λ (x : Components D). is_fully_shutdown x ≡ false) (sym same) (ground (arith, left))
