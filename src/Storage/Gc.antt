-- ===== src/Storage/Gc.antt =====
-- pkg/storage/gc.go: the garbage collector, its metrics, and the cleanup of access counts after a run.
-- BadgerDB's collection and its sizes are arguments of a run, and so are the clock's readings.
pub mod Runs
use content_storage_server.Prelude.{
  ℕ, ◌+◌, ◌-◌, ◌%◌, Bool, true, false, not, ◌||◌, Option, none, some, List, [], ◌∷◌, ltb, leb, ◌==◌,
  if◌then◌else◌,
}
use content_storage_server.Prelude.Int64.{Int64, add, slt}
use content_storage_server.Prelude.Assoc.{Assoc}
use content_storage_server.Storage.Badger.{Badger, Codec}
use content_storage_server.Storage.Error.{DbError, Result, ok, err}
use content_storage_server.Storage.Access.{
  AccessManager, should_run_cleanup, cleanup_expired_trackers,
}
use content_storage_server.Storage.Crud.{BadgerStorage}
use content_storage_server.Storage.Api.{get_all_content_ids}

pub record GcMetrics : Type 0 where
  pub total_runs : Int64
  pub successful_runs : Int64
  pub failed_runs : Int64
  pub last_run_time : Option ℕ
  pub last_run_duration : ℕ
  pub space_reclaimed : Int64
  pub expired_items_removed : Int64

-- `stop_spent` is whether `stopOnce` was used; a time is none before the first run.
pub record GarbageCollector : Type 0 where
  pub interval : ℕ
  pub is_running : Bool
  pub stop_spent : Bool
  pub last_gc_time : Option ℕ
  pub adaptive_schedule : Bool
  pub low_traffic_hours : List ℕ
  pub metrics : GcMetrics

-- What db.RunValueLogGC returns: nil, ErrNoRewrite, or another error.
pub data GcOutcome : Type 0 where
  rewritten no_rewrite : GcOutcome
  gc_failed : DbError → GcOutcome

-- One run: the sizes before and after, the outcome, and the clock.
pub record GcRun : Type 0 where
  pub started : ℕ
  pub duration : ℕ
  pub finished : ℕ
  pub size_before : Int64
  pub size_after : Int64
  pub outcome : GcOutcome

unfoldable pub new_metrics : GcMetrics
new_metrics = record {
  total_runs = 0;
  successful_runs = 0;
  failed_runs = 0;
  last_run_time = none;
  last_run_duration = 0;
  space_reclaimed = 0;
  expired_items_removed = 0;
}

-- Five minutes, in nanoseconds.
unfoldable pub new_garbage_collector : GarbageCollector
unfolding new_metrics
new_garbage_collector = record {
  interval = 300000000000;
  is_running = false;
  stop_spent = false;
  last_gc_time = none;
  adaptive_schedule = false;
  low_traffic_hours = 2 ∷ 3 ∷ 4 ∷ 5 ∷ 6 ∷ [];
  metrics = new_metrics;
}

unfoldable pub start_internal : GarbageCollector → GarbageCollector
start_internal gc = if gc.is_running then gc else record gc { is_running = true }

unfoldable pub stop_internal : GarbageCollector → GarbageCollector
stop_internal gc = if gc.is_running then record gc { is_running = false } else gc

-- `Stop`, which does something at the first call only.
unfoldable pub stop_gc : GarbageCollector → GarbageCollector
unfolding stop_internal
stop_gc gc = if gc.stop_spent then gc else record (stop_internal gc) { stop_spent = true }

unfoldable pub set_interval : ℕ → GarbageCollector → GarbageCollector
unfolding start_internal stop_internal
set_interval d gc =
    let gc' = record gc { interval = d } in
    if gc.is_running then start_internal (stop_internal gc') else gc'

abbrev among : ℕ → List ℕ → Bool
among h [] = false
among h (x ∷ xs) = (h == x) || among h xs

-- At hour `hour` of the time `now`.
unfoldable pub should_run_gc : ℕ → ℕ → GarbageCollector → Bool
should_run_gc hour now gc =
    if not gc.adaptive_schedule
    then true
    else if among hour gc.low_traffic_hours
    then true
    else (elim gc.last_gc_time [ none ↦ true | some t ↦ leb (t + gc.interval) now ])

unfoldable pub reset_metrics : GarbageCollector → GarbageCollector
unfolding new_metrics
reset_metrics gc = record gc { metrics = new_metrics }

-- The difference of the sizes, as a 64-bit integer.
abbrev minus : Int64 → Int64 → Int64
minus a c = (a + (18446744073709551616 - c)) % 18446744073709551616

-- The metrics of a run that was counted as begun.
unfoldable pub finish_run : GcRun → GcMetrics → GcMetrics
finish_run r m =
    let reclaimed = minus r.size_before r.size_after in
    let m1 = record m {
      last_run_time = some r.started;
      last_run_duration = r.duration;
      space_reclaimed =
          if slt 0 reclaimed then add m.space_reclaimed reclaimed else m.space_reclaimed;
    } in
    elim r.outcome [
      | gc_failed e ↦ record m1 { failed_runs = add m.failed_runs 1 }
      | rewritten ↦ record m1 { successful_runs = add m.successful_runs 1 }
      | no_rewrite ↦ record m1 { successful_runs = add m.successful_runs 1 }
    ]

abbrev pub gc_error : GcOutcome → Option DbError
gc_error (gc_failed e) = some e
gc_error rewritten = none
gc_error no_rewrite = none

-- The collector after the collection itself.
unfoldable pub collect : GcRun → GarbageCollector → GarbageCollector
unfolding finish_run
collect r gc =
    let m = record gc.metrics { total_runs = add gc.metrics.total_runs 1 } in
    let gc' = record gc { metrics = finish_run r m } in
    elim (gc_error r.outcome) [ some e ↦ gc' | none ↦ record gc' { last_gc_time = some r.started } ]

-- What the cleanup removed, if anything.
unfoldable pub count_removed : ℕ → GarbageCollector → GarbageCollector
count_removed n gc =
    if ltb 0 n
    then record gc {
      metrics = record gc.metrics {
        expired_items_removed = add gc.metrics.expired_items_removed (n % 18446744073709551616);
      };
    }
    else gc

module _ {D B : Type 0} (b : Badger D B) (j : Codec) where
  unfoldable pub clean_counts :
      ℕ → GarbageCollector → BadgerStorage D → GarbageCollector × BadgerStorage D
  unfolding count_removed
  clean_counts now gc s =
      if should_run_cleanup s.access_manager now
      then (elim (get_all_content_ids b j s.system.queue.db) [
        | err e ↦ (gc, s)
        | ok ids ↦
            let (am, removed) = cleanup_expired_trackers s.access_manager ids now in
            (count_removed removed gc, record s { access_manager = am })
      ])
      else (gc, s)

  -- `RunGC`.
  unfoldable pub run_gc :
      GcRun
      → GarbageCollector
      → BadgerStorage D
      → (GarbageCollector × BadgerStorage D) × Option DbError
  unfolding collect clean_counts
  run_gc r gc s = (clean_counts r.finished (collect r gc) s, gc_error r.outcome)
