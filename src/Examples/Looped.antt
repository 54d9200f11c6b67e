-- ===== src/Examples/Looped.antt =====
-- Two ticks of the collector and three of the backups.
use content_storage_server.Prelude.{◌≡◌, true, false, none, [], ◌∷◌, arith, bytes, List, Bytes}
use content_storage_server.Prelude.Assoc
use content_storage_server.Prelude.Assoc.{Assoc}
use content_storage_server.Storage.Gc.{new_garbage_collector}
use content_storage_server.Storage.Crud.{BadgerStorage}
use content_storage_server.Storage.Gc.{GarbageCollector}
use content_storage_server.Storage.Close.{BackupManager}
use content_storage_server.Storage.Loops.{Ticker, new_ticker, GcTick, BackupTick, backup_loop}
use content_storage_server.Storage.Loops.Pace.{pause, row, results, backup_loop-pause}
use content_storage_server.Examples.{one_stored}
use content_storage_server.Examples.Lifecycle.{a_run}
use content_storage_server.Examples.Kept.{backups, by_time, three}

abbrev two_ticks : List GcTick
two_ticks =
    record { hour = 3; now = 15; gc_run = a_run }
    ∷ record { hour = 12; now = 40; gc_run = a_run }
    ∷ []

abbrev at_start : Ticker × (GarbageCollector × BadgerStorage (Assoc Bytes))
at_start = (new_ticker 300000000000, (new_garbage_collector, one_stored))

-- The second backup is cancelled.
abbrev three_ticks : List BackupTick
three_ticks =
    record { now = 50; path = bytes "u"; cancelled = false }
    ∷ record { now = 60; path = bytes "v"; cancelled = true }
    ∷ record { now = 70; path = bytes "w"; cancelled = true }
    ∷ []

abbrev never_saved : BackupManager
never_saved = record { is_running = true; stop_spent = false; last_backup = none }

-- Every six hours, and after the two failures every 30 minutes.
backup_loop-pause_example :
    (backup_loop backups by_time 2 21600000000000 three_ticks
      (new_ticker 21600000000000, (three, never_saved))).0.period
    ≡ pause 1800000000000 21600000000000
        (row 0 (results backups by_time 2 three_ticks three never_saved))
backup_loop-pause_example =
    backup_loop-pause backups by_time 2 21600000000000 three_ticks three never_saved (omega arith)
      (omega arith) (omega arith)
