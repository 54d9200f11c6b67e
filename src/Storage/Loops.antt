-- ===== src/Storage/Loops.antt =====
-- The background loops of pkg/storage: gcLoop of gc.go, backupLoop of backup.go and StartCleanupLoop of
-- access_manager.go. A loop runs on the list of its ticks and is stopped behind them; a tick brings the
-- clock and what BadgerDB does at it.
pub mod Pace
pub mod Kept
use content_storage_server.Prelude.{
  ℕ, Bool, true, false, Option, none, some, List, [], ◌∷◌, Bytes, if◌then◌else◌,
}
use content_storage_server.Prelude.Int64.{Int64, add, mul, slt}
use content_storage_server.Storage.Error.{ok, err}
use content_storage_server.Storage.Badger.{Badger, Codec}
use content_storage_server.Storage.Access.{cleanup_expired_trackers}
use content_storage_server.Storage.Crud.{BadgerStorage}
use content_storage_server.Storage.Api.{get_all_content_ids}
use content_storage_server.Storage.Gc.{GarbageCollector, GcRun, should_run_gc, run_gc}
use content_storage_server.Storage.Close.{BackupManager}
use content_storage_server.Storage.Backup.{FileInfo, BackupDirectory, do_backup}

-- The time to the next tick, and `consecutiveErrors`.
pub record Ticker : Type 0 where
  pub period : Int64
  pub consecutive_errors : Int64

unfoldable pub new_ticker : Int64 → Ticker
new_ticker interval = record { period = interval; consecutive_errors = 0 }

unfoldable pub backoff : Int64 → Int64 → Int64 → Int64
backoff max_backoff errors interval =
    let delay = mul errors interval in if slt max_backoff delay then max_backoff else delay

unfoldable pub after_error : Int64 → Int64 → Ticker → Ticker
unfolding backoff
after_error max_backoff interval t =
    let errors = add t.consecutive_errors 1 in
    if slt 0 errors
    then record { period = backoff max_backoff errors interval; consecutive_errors = errors }
    else record t { consecutive_errors = errors }

unfoldable pub after_success : Int64 → Ticker → Ticker
unfolding new_ticker
after_success interval t = if slt 0 t.consecutive_errors then new_ticker interval else t

abbrev pub paced {ℓ} : {E : Type ℓ} → Int64 → Int64 → Option E → Ticker → Ticker
paced max_backoff interval none t = after_success interval t
paced max_backoff interval (some e) t = after_error max_backoff interval t

-- A tick of the collector at an hour and a time, with the run that it may start.
pub record GcTick : Type 0 where
  pub hour : ℕ
  pub now : ℕ
  pub gc_run : GcRun

module _ {D B : Type 0} (b : Badger D B) (j : Codec) where
  -- 5 minutes are the longest pause.
  unfoldable pub gc_tick :
      GcTick
      → Ticker × (GarbageCollector × BadgerStorage D)
      → Ticker × (GarbageCollector × BadgerStorage D)
  unfolding should_run_gc run_gc after_error after_success
  gc_tick k (t, (gc, s)) =
      if should_run_gc k.hour k.now gc
      then (let (after, e) = run_gc b j k.gc_run gc s in
          (paced 300000000000 gc.interval e t, after))
      else (t, (gc, s))

  unfoldable pub gc_loop :
      List GcTick
      → Ticker × (GarbageCollector × BadgerStorage D)
      → Ticker × (GarbageCollector × BadgerStorage D)
  unfolding gc_tick
  gc_loop [] y = y
  gc_loop (k ∷ ks) y = gc_loop ks (gc_tick k y)

  -- `StartCleanupLoop`, on the times of its ticks.
  unfoldable pub cleanup_tick : ℕ → BadgerStorage D → BadgerStorage D
  unfolding get_all_content_ids cleanup_expired_trackers
  cleanup_tick now s = elim (get_all_content_ids b j s.system.queue.db) [
    | err e ↦ s
    | ok ids ↦ record s { access_manager = (cleanup_expired_trackers s.access_manager ids now).0 }
  ]

  unfoldable pub cleanup_loop : List ℕ → BadgerStorage D → BadgerStorage D
  unfolding cleanup_tick
  cleanup_loop [] s = s
  cleanup_loop (now ∷ ts) s = cleanup_loop ts (cleanup_tick now s)

-- A tick of the backups: the time, the name of the file, and whether the context is done.
pub record BackupTick : Type 0 where
  pub now : ℕ
  pub path : Bytes
  pub cancelled : Bool

module _ {F : Type 0} (d : BackupDirectory F) (sort : List FileInfo → List FileInfo) (max : ℕ) where
  -- 30 minutes are the longest pause.
  unfoldable pub backup_tick :
      Int64 → BackupTick → Ticker × (F × BackupManager) → Ticker × (F × BackupManager)
  unfolding do_backup after_error after_success
  backup_tick interval k (t, (f, bm)) =
      let (after, e) = do_backup d sort k.cancelled max k.now k.path f bm in
      (paced 1800000000000 interval e t, after)

  unfoldable pub backup_loop :
      Int64 → List BackupTick → Ticker × (F × BackupManager) → Ticker × (F × BackupManager)
  unfolding backup_tick
  backup_loop interval [] y = y
  backup_loop interval (k ∷ ks) y = backup_loop interval ks (backup_tick interval k y)
