-- ===== src/Examples/Lifecycle.antt =====
-- A first shutdown, and one after a restart.
use content_storage_server.Prelude.{◌≡◌, refl, true, false, some, [], Bytes}
use content_storage_server.Prelude.Assoc.{Assoc}
use content_storage_server.Storage.CountedSyncMap
use content_storage_server.Storage.Queue.{is_running}
use content_storage_server.Storage.Queue.Flush.{simple_flush, stop}
use content_storage_server.Storage.Gc.{
  GcRun, new_garbage_collector, rewritten, start_internal, stop_gc,
}
use content_storage_server.Storage.Close.{
  Component, Components, Stopping, in_time, is_fully_shutdown, execute_sequential_shutdown, restart,
  is_stopped, verify_clean_shutdown, stop_background, stop_queue_worker,
}
use content_storage_server.Storage.Close.Stops.{
  IsFirst, first_shutdown_stops, second_shutdown_leaves,
}
use content_storage_server.Examples.{memory, plain, one_stored}

abbrev pub a_run : GcRun
a_run = record {
  started = 15;
  duration = 3;
  finished = 18;
  size_before = 900;
  size_after = 400;
  outcome = rewritten;
}

-- A storage whose components all run, with nothing pending.
abbrev pub all_running : Components (Assoc Bytes)
all_running = record {
  gc = some (start_internal new_garbage_collector);
  backup_manager = some (record { is_running = true; stop_spent = false; last_backup = some 7 });
  health_monitor = some (record { is_running = true; stop_spent = false });
  system = one_stored.system;
  is_closed = false;
}

all_running-IsFirst : IsFirst memory plain all_running
unfolding start_internal new_garbage_collector
all_running-IsFirst = record { gc_first = refl; backup_first = refl; health_first = refl }

abbrev all_in_time : Component → Stopping
all_in_time c = in_time

abbrev after_first : Components (Assoc Bytes)
after_first = record (stop_background all_in_time all_running) {
  system = stop_queue_worker memory plain in_time [] all_running.system;
}

first_returns :
    execute_sequential_shutdown memory plain [] [] all_in_time all_running ≡ some (after_first, [])
unfolding execute_sequential_shutdown simple_flush is_running CountedSyncMap.is_empty
first_returns = refl

first_shutdown_example : is_fully_shutdown after_first ≡ true
first_shutdown_example =
    first_shutdown_stops memory plain [] [] all_in_time all_running after_first []
      all_running-IsFirst (λ x. refl) first_returns

-- After the restart, the collector runs on.
abbrev after_second : Components (Assoc Bytes)
after_second = record (stop_background all_in_time (restart true after_first).0) {
  system = stop_queue_worker memory plain in_time [] after_first.system;
}

stopped_at_first : is_fully_shutdown after_first ≡ true
unfolding is_fully_shutdown verify_clean_shutdown is_stopped is_running stop_background
    start_internal new_garbage_collector stop_gc stop_queue_worker stop
stopped_at_first = refl

second_returns :
    execute_sequential_shutdown memory plain [] [] all_in_time (restart true after_first).0
    ≡ some (after_second, [])
unfolding execute_sequential_shutdown simple_flush is_running CountedSyncMap.is_empty restart
    new_garbage_collector stop_gc stop
second_returns = refl

second_shutdown_example : is_fully_shutdown after_second ≡ false
unfolding stop_background stop_gc start_internal new_garbage_collector
second_shutdown_example =
    second_shutdown_leaves memory plain [] [] all_in_time true after_first after_second
      (stop_gc (start_internal new_garbage_collector)) [] refl refl refl stopped_at_first
      second_returns
