-- ===== src/Handlers/Maintenance/Answers.antt =====
-- What the maintenance requests of internal/handlers/health.go answer, and what they leave.
use content_storage_server.Prelude.{
  ℕ, ◌≡◌, refl, sym, subst, ap, ◌∙◌, Bool, true, false, Option, none, some, List, [], arith, Bytes,
  if◌then◌else◌, Option-cases, inl, inr, ◌⊎◌, ◌&&◌, length, str_eq,
}
use content_storage_server.Prelude.Int64.{Int64}
use content_storage_server.Prelude.Assoc
use content_storage_server.Storage.Error.{DbError, Error, ok, err, Result-cases}
use content_storage_server.Storage.Badger.{Badger, Codec, Item}
use content_storage_server.Storage.Api.{get_all_content_ids, key_set}
use content_storage_server.Storage.Access.{get_access_count, cleanup_expired_trackers}
use content_storage_server.Storage.Access.Laws.{cleanup_lem}
use content_storage_server.Storage.Queue.{get_metrics}
use content_storage_server.Storage.Gc.{GarbageCollector, GcRun, gc_error, run_gc}
use content_storage_server.Storage.Gc.Runs.{IsBalanced, in_items, in_set-key_set, run_gc_lem}
use content_storage_server.Storage.Close.{Components, HealthMonitor, BackupManager}
use content_storage_server.Storage.Health.{
  HealthStatus, healthy, degraded, unhealthy, is_unhealthy, get_overall_health,
  check_database_health,
}
use content_storage_server.Storage.Health.Overall.{get_overall_health_lem, backups_well, collects}
use content_storage_server.Storage.Backup.Retention.{do_backup_lem}
use content_storage_server.Storage.Backup.{FileInfo, BackupDirectory, BackupError, do_backup}
use content_storage_server.Storage.Open.{Storage}
use content_storage_server.Storage.Managed.{
  backup_error, Views, with_gc, with_backup_manager, after_backup, get_health_status,
  get_database_health_metrics, run_storage_gc, create_storage_backup, get_backup_stats,
}
use content_storage_server.Handlers.Maintenance.{
  Backend, badger, Health, detailed, Body, of_gc, backup_failed, backup_created, cleanup_failed,
  cleaned, MetricsResponse, metrics_of, get_metrics_response, status_code, detailed_health_check,
  trigger_gc, cleanup_access_trackers, backup_path, backup_size, create_backup, answer_backup,
}

-- `get_database_health_metrics` of a storage with a monitor.
get_database_health_metrics_lem :
    {D : Type 0} (s : Storage D) (viewed : Option DbError) (m : HealthMonitor)
    → s.components.health_monitor ≡ some m
    → get_database_health_metrics viewed s.components ≡ some (check_database_health viewed)
unfolding get_database_health_metrics
get_database_health_metrics_lem s viewed m h = rw (h, get_database_health_metrics) refl

abbrev with_status {ℓ} : {A : Type ℓ} → (HealthStatus → A) → Option HealthStatus → Option A
with_status f none = none
with_status f (some status) = some (f status)

-- The storage of the server, where another could be.
abbrev pub backend : {D : Type 0} (O : Type 0) → Storage D → Backend D O
backend O s = badger s

-- The status that an outcome of the deciding read gives.
abbrev pub by_read : Option DbError → ℕ
by_read none = 200
by_read (some e) = 503

abbrev pub code_of : HealthStatus → ℕ
code_of h = if is_unhealthy h then 503 else 200

overall_code :
    {D : Type 0} (now : ℕ) (v : Option DbError) (c : Components D)
    → by_read v ≡ code_of (get_overall_health now v c)
overall_code now none c = sym (
    ap code_of (get_overall_health_lem now none c)
    ∙ by_test (backups_well now c.backup_manager && collects c.gc))
  where
    by_test : (t : Bool) → code_of (if t then healthy else degraded) ≡ 200
    by_test true = refl
    by_test false = refl
overall_code now (some e) c = sym (ap code_of (get_overall_health_lem now (some e) c))

module _ {D B O : Type 0} (b : Badger D B) (j : Codec) where
  -- On a storage with a health monitor the detailed check is answered 503 exactly if its last
  -- read of the database fails, and 200 otherwise; so the code tells an unhealthy storage, by the
  -- overall status at that read, from any other, and a degraded one is answered 200.
  pub detailed_health_check_lem :
      (count : O → ℕ) (now : ℕ) (v : Views) (last : Option DbError) (s : Storage D)
      (m : HealthMonitor)
      → s.components.health_monitor ≡ some m
      → (a : ℕ × Health) × (detailed_health_check b j count now v last (badger s) ≡ some a)
        × (a.0 ≡ by_read last)
        × (a.0 ≡ code_of (get_overall_health now last s.components))
  unfolding detailed_health_check get_database_health_metrics check_database_health
  detailed_health_check_lem count now v last s m h = by_outcome last
    where
      answer : HealthStatus → ℕ × Health
      answer status = (
        status_code status,
        detailed status (get_health_status now v s.components)
            (get_metrics s.components.system.queue),
      )

      by_outcome :
          (l : Option DbError)
          → (a : ℕ × Health) × (detailed_health_check b j count now v l (badger s) ≡ some a)
            × (a.0 ≡ by_read l)
            × (a.0 ≡ code_of (get_overall_health now l s.components))
      by_outcome none = (
        (
          200,
          detailed healthy (get_health_status now v s.components)
              (get_metrics s.components.system.queue),
        ),
        ap (λ (x : Option HealthStatus). with_status answer x)
            (get_database_health_metrics_lem s none m h),
        refl,
        overall_code now none s.components,
      )
      by_outcome (some e) = (
        (
          503,
          detailed unhealthy (get_health_status now v s.components)
              (get_metrics s.components.system.queue),
        ),
        ap (λ (x : Option HealthStatus). with_status answer x)
            (get_database_health_metrics_lem s (some e) m h),
        refl,
        overall_code now (some e) s.components,
      )

  pub trigger_gc_lem :
      (r : GcRun) (s : Storage D) (gc : GarbageCollector) (is : List Item) (k : Bytes)
      → s.components.gc ≡ some gc
      → IsBalanced gc
      → b.scan s.components.system.queue.db ≡ ok is
      → in_items is k ≡ true
      → (s2 : Storage D) × (gc2 : GarbageCollector) × (trigger_gc b j r (backend O s)
          ≡ some (badger s2, of_gc (gc_error r.outcome)))
        × (s2.components.gc ≡ some gc2)
        × IsBalanced gc2
        × (get_access_count s2.access_manager k ≡ get_access_count s.access_manager k)
  unfolding trigger_gc run_storage_gc run_gc
  trigger_gc_lem r s gc is k h balanced scanned stored =
      let kept =
        run_gc_lem b j r gc
          (record { system = s.components.system; access_manager = s.access_manager }) is k balanced
          scanned in
      let out =
        (run_gc b j r gc
          (record { system = s.components.system; access_manager = s.access_manager })).0 in
      (with_gc s out.0 out.1, out.0, rw (h, trigger_gc) refl, refl, kept.0, kept.1 ∙ rw stored refl)

  -- A cleanup request to a storage either finds that its contents cannot be listed, is answered
  -- 500 and leaves the storage as it is, or is answered 200, keeps the access count of each
  -- content that is stored, forgets all others and changes nothing else.
  pub cleanup_access_trackers_lem :
      (now : ℕ) (s : Storage D) (k : Bytes)
      → ((e : Error) × (b.scan s.components.system.queue.db ≡ err e)
          × (cleanup_access_trackers b j now (backend O s) ≡ (badger s, (500, cleanup_failed e))))
        ⊎ ((is : List Item) × (s2 : Storage D) × (n : ℕ) × (b.scan s.components.system.queue.db
              ≡ ok is)
            × (cleanup_access_trackers b j now (backend O s) ≡ (badger s2, (200, cleaned n)))
            × (s2.components ≡ s.components)
            × (get_access_count s2.access_manager k
                ≡ (if in_items is k then get_access_count s.access_manager k else 0)))
  unfolding cleanup_access_trackers get_all_content_ids
  cleanup_access_trackers_lem now s k = elim (Result-cases (b.scan s.components.system.queue.db)) [
    | inl (is, h) ↦ inr (
      is,
      record s { access_manager = (cleanup_expired_trackers s.access_manager (key_set is) now).0 },
      (cleanup_expired_trackers s.access_manager (key_set is) now).1,
      h,
      rw (h, cleanup_access_trackers) refl,
      refl,
      cleanup_lem s.access_manager (key_set is) now k
          ∙ ap (λ t. if t then get_access_count s.access_manager k else 0) (in_set-key_set is k),
    )
    | inr (e, h) ↦ inl (e, h, rw (h, cleanup_access_trackers) refl)
  ]

-- The statistics have no path and no size of a backup.
no_details :
    {D F : Type 0} (d : BackupDirectory F) (f : F) (s : Storage D)
    → (backup_path (get_backup_stats d f s) ≡ []) × (backup_size (get_backup_stats d f s) ≡ 0)
unfolding get_backup_stats Assoc.get str_eq
no_details d f s = elim (Option-cases s.components.backup_manager) [
  | inl none_made ↦ rw (none_made, get_backup_stats) (refl, refl)
  | inr (m, made) ↦
      rw (made, get_backup_stats)
        (elim (Option-cases (d.list f)) [
          | inl unlisted ↦ rw (unlisted, get_backup_stats) (refl, refl)
          | inr (backups, listed) ↦ rw (listed, get_backup_stats) (refl, refl)
        ])
]

-- The answer to what a backup gave.
abbrev pub of_backup : Option BackupError → ℕ × Body
of_backup none = (200, backup_created [] 0)
of_backup (some e) = (500, backup_failed (backup_error e))

module _ {D O F : Type 0} (d : BackupDirectory F) where
  answered :
      (s : Storage D) (x : (F × BackupManager) × Option BackupError)
      → answer_backup d (after_backup d s x)
        ≡ ((x.0.0, backend O (with_backup_manager s x.0.1)), of_backup x.1)
  answered s ((f, m), none) =
      let parts = no_details d f (with_backup_manager s m) in rw parts.0 (rw parts.1 refl)
  answered s ((f, m), some e) = refl

  pub create_backup_lem :
      (sort : List FileInfo → List FileInfo) (cancelled : Bool) (max now : ℕ) (path : Bytes) (f : F)
      (s : Storage D) (m : BackupManager)
      → s.components.backup_manager ≡ some m
      → let done = do_backup d sort cancelled max now path f m in
        create_backup d sort cancelled max now path f (backend O s)
        ≡ ((done.0.0, backend O (with_backup_manager s done.0.1)), of_backup done.1)
  unfolding create_backup create_storage_backup
  create_backup_lem sort cancelled max now path f s m h =
      let made : create_storage_backup d sort cancelled max now path f s
          ≡ after_backup d s (do_backup d sort cancelled max now path f m) =
        rw (h, create_storage_backup) refl in
      ap (answer_backup d) made ∙ answered s (do_backup d sort cancelled max now path f m)

  module _ {B : Type 0} (b : Badger D B) (j : Codec) (count : O → ℕ) where
    -- What the metrics report of a backup manager whose directory can be listed.
    reported :
        (f : F) (s : Storage D) (m : BackupManager) (hm : HealthMonitor) (viewed : Option DbError)
        (size : Option Int64) (backups : List Bytes)
        → s.components.health_monitor ≡ some hm
        → d.list f ≡ some backups
        → (r : MetricsResponse) × (get_metrics_response b j count d f viewed size
              (backend O (with_backup_manager s m))
            ≡ some r)
          × (r.last_backup ≡ some m.last_backup)
          × (r.backup_count ≡ length backups)
    unfolding get_metrics_response metrics_of get_backup_stats get_database_health_metrics Assoc.get
        str_eq
    reported f s m hm viewed size backups h l =
        let st = with_backup_manager s m in
        let answer : HealthStatus → MetricsResponse =
          λ status. metrics_of b j count status (get_backup_stats d f st) size st in
        (
          answer (check_database_health viewed),
          ap (λ (x : Option HealthStatus). with_status answer x)
              (get_database_health_metrics_lem s viewed hm h),
          rw (l, get_backup_stats) refl,
          rw (l, get_backup_stats) refl,
        )

    -- What a backup and a look at the metrics come to.
    abbrev pub Reported :
        Option DbError → Option Int64 → List Bytes → ℕ → (F × Backend D O) × (ℕ × Body) → Type 0
    Reported viewed size backups now ((f, h), answer) =
        (answer ≡ (200, backup_created [] 0))
        × (r : MetricsResponse) × (get_metrics_response b j count d f viewed size h ≡ some r)
        × (r.last_backup ≡ some (some now))
        × (r.backup_count ≡ length backups)

    -- If a backup request to a storage with a backup manager and a health monitor is answered
    -- 200, and the backups can be listed afterwards, then the answer has no path and the size 0,
    -- and the metrics report the time of this backup as the last one, and how many backups are
    -- listed.
    pub create_backup-Reported :
        (sort : List FileInfo → List FileInfo) (cancelled : Bool) (max now : ℕ) (path : Bytes)
        (f : F) (s : Storage D) (m : BackupManager) (hm : HealthMonitor) (viewed : Option DbError)
        (size : Option Int64) (backups : List Bytes)
        → s.components.backup_manager ≡ some m
        → s.components.health_monitor ≡ some hm
        → d.list (create_backup d sort cancelled max now path f (backend O s)).0.0 ≡ some backups
        → (create_backup d sort cancelled max now path f (backend O s)).1.0 ≡ 200
        → Reported viewed size backups now
            (create_backup d sort cancelled max now path f (backend O s))
    create_backup-Reported sort cancelled max now path f s m hm viewed size backups k h =
        let done = do_backup d sort cancelled max now path f m in
        let recorded : done.1 ≡ none → done.0.1.last_backup ≡ some now = λ e.
          ap (λ (x : BackupManager). x.last_backup)
            (do_backup_lem d sort cancelled max now path f m)
          ∙ rw e refl in
        subst
          (λ out.
            d.list out.0.0 ≡ some backups → out.1.0 ≡ 200 → Reported viewed size backups now out)
          (sym (create_backup_lem sort cancelled max now path f s m k))
          (by_outcome done.0.0 done.0.1 done.1 recorded)
      where
        by_outcome :
            (f2 : F) (m2 : BackupManager) (e : Option BackupError)
            → (e ≡ none → m2.last_backup ≡ some now)
            → d.list f2 ≡ some backups
            → (of_backup e).0 ≡ 200
            → Reported viewed size backups now
                ((f2, backend O (with_backup_manager s m2)), of_backup e)
        by_outcome f2 m2 none recorded l accepted =
            let (r, given, time, total) = reported f2 s m2 hm viewed size backups h l in
            (refl, r, given, time ∙ ap some (recorded refl), total)
        by_outcome f2 m2 (some x) recorded l accepted = absurd (omega (arith, accepted))
