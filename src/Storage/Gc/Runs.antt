-- ===== src/Storage/Gc/Runs.antt =====
-- Runs of the garbage collector of pkg/storage/gc.go.
use content_storage_server.Prelude.{
  ◌+◌, ◌%◌, ◌≡◌, refl, ap, ◌∙◌, Bool, true, false, ◌||◌, List, [], ◌∷◌, arith, Bytes, if◌then◌else◌,
  Bool-cases, inl, inr, ltb, str_eq, if_induction,
}
use content_storage_server.Prelude.Assoc
use content_storage_server.Storage.Badger.{Badger, Codec, Item}
use content_storage_server.Storage.Error.{ok}
use content_storage_server.Storage.Access.{
  get_access_count, should_run_cleanup, cleanup_expired_trackers, in_set,
}
use content_storage_server.Storage.Access.Laws.{cleanup_lem}
use content_storage_server.Storage.Crud.{BadgerStorage}
use content_storage_server.Storage.Api.{get_all_content_ids, key_set}
use content_storage_server.Storage.Gc.{
  GarbageCollector, GcOutcome, rewritten, no_rewrite, gc_failed, GcRun, finish_run, collect,
  count_removed, clean_counts, run_gc,
}

-- Every run was counted as a success or as a failure, modulo 2 ^ 64.
abbrev pub IsBalanced : GarbageCollector → Type 0
IsBalanced gc =
    gc.metrics.total_runs % 18446744073709551616
    ≡ (gc.metrics.successful_runs + gc.metrics.failed_runs) % 18446744073709551616

collect-IsBalanced : (r : GcRun) (gc : GarbageCollector) → IsBalanced gc → IsBalanced (collect r gc)
unfolding collect finish_run
collect-IsBalanced r gc h = by_outcome r.outcome
  where
    by_outcome : (o : GcOutcome) → IsBalanced (collect (record r { outcome = o }) gc)
    by_outcome rewritten = omega (arith, h)
    by_outcome no_rewrite = omega (arith, h)
    by_outcome (gc_failed e) = omega (arith, h)

-- Some item has the key.
abbrev pub in_items : List Item → Bytes → Bool
in_items [] k = false
in_items (i ∷ is) k = str_eq i.key k || in_items is k

pub in_set-key_set : (is : List Item) (k : Bytes) → in_set (key_set is) k ≡ in_items is k
unfolding Assoc.get
in_set-key_set [] k = refl
in_set-key_set (i ∷ is) k =
    ground (arith, Assoc.get-put (key_set is) i.key k true, in_set-key_set is k)

module _ {D B : Type 0} (b : Badger D B) (j : Codec) where
  -- If every run so far was counted as a success or as a failure, modulo 2 ^ 64, then so it is
  -- after one more run, whatever its outcome. If the contents can be listed, the access count of
  -- each content in the database is kept by the run, and the count of any other key is forgotten
  -- if a cleanup was due when the collection ended, and kept otherwise.
  pub run_gc_lem :
      (r : GcRun) (gc : GarbageCollector) (s : BadgerStorage D) (is : List Item) (k : Bytes)
      → IsBalanced gc
      → b.scan s.system.queue.db ≡ ok is
      → let out = (run_gc b j r gc s).0 in
        IsBalanced out.0
        × (get_access_count out.1.access_manager k ≡ (
            if in_items is k
            then get_access_count s.access_manager k
            else if should_run_cleanup s.access_manager r.finished
            then 0
            else get_access_count s.access_manager k))
  unfolding run_gc clean_counts get_all_content_ids count_removed
  run_gc_lem r gc s is k balanced scanned =
      elim (Bool-cases (should_run_cleanup s.access_manager r.finished)) [
        | inr early ↦
            rw (early, clean_counts)
              (
                collect-IsBalanced r gc balanced,
                if_induction (λ x. get_access_count s.access_manager k ≡ x) (in_items is k) refl
                    refl,
              )
        | inl due ↦
            rw (due, clean_counts)
              (rw (scanned, get_all_content_ids)
                (
                  if_induction IsBalanced
                      (ltb 0 (cleanup_expired_trackers s.access_manager (key_set is) r.finished).1)
                      (collect-IsBalanced r gc balanced) (collect-IsBalanced r gc balanced),
                  cleanup_lem s.access_manager (key_set is) r.finished k
                      ∙ ap (λ t. if t then get_access_count s.access_manager k else 0)
                          (in_set-key_set is k),
                ))
      ]
