-- ===== src/Handlers/Content/Removes.antt =====
-- `DeleteContent` and `deleteWithRetry` of internal/handlers/content.go over `BadgerStorage`.
use content_storage_server.Prelude.{
  ℕ, zero, suc, ◌≡◌, refl, sym, ap, subst, ◌∙◌, inl, inr, Bool, true, false, ◌&&◌, Option, none,
  some, List, arith, Bytes, bytes, contains, str_eq, str_eq_refl, if◌then◌else◌, ◌==◌, Bool-cases,
  Option-cases,
}
use content_storage_server.Storage.Badger.{Badger, Codec, IsBadger, missing}
use content_storage_server.Storage.Queue.{is_content_in_queue}
use content_storage_server.Storage.Queue.Batch.{names}
use content_storage_server.Storage.Queue.Batch.Durable.{IsReliable}
use content_storage_server.Storage.Queue.Worker.Eventual.{outstanding}
use content_storage_server.Storage.Queue.Worker.Untouched.{
  IsUntouched, run_worker-IsUntouched, run_worker-read,
}
use content_storage_server.Storage.Error.{DbError, Error, Result, ok, err, delete_pending_write}
use content_storage_server.Storage.Error.Message.{Texts, message}
use content_storage_server.Storage.Access.{get_access_count}
use content_storage_server.Storage.Queue.Worker.{System, Event}
use content_storage_server.Storage.Crud.{
  BadgerStorage, with_system, wait_for_content_write, content_exists, delete_existing, delete,
  after_delete, delete_loop, max_retries,
}
use content_storage_server.Storage.Crud.Deletes.{succeeded, delete_existing_lem}
use content_storage_server.Storage.Api.{
  Storage, Moment, badger_storage, wait_in_storage, delete_in_storage,
}
use content_storage_server.Handlers.Http.{DeleteFailure, by_storage}
use content_storage_server.Handlers.Validation.{validate_id}
use content_storage_server.Handlers.Content.{
  Validator, is_not_found, delete_response, delete_attempts, delete_with_retry, delete_content,
}

deleted_status :
    (id : Bytes) (r : Option DeleteFailure) → ((delete_response id r).status == 200) ≡ succeeded r
unfolding delete_response
deleted_status id none = refl
deleted_status id (some e) = elim (Bool-cases (is_not_found e)) [
  | inl h ↦ rw (h, delete_response) refl
  | inr h ↦ rw (h, delete_response) refl
]

module _ {D B : Type 0} (b : Badger D B) (j : Codec) where
  -- From `s` to `s'` the content `k` went if `gone` says so, if no task of it was outstanding, and then
  -- none is; the access counts of all other keys stayed, and its own too if it did not go.
  pub record Removes (s s' : BadgerStorage D) (k : Bytes) (gone : Bool) : Type 0 where
    pub nothing_new : IsUntouched k s.system → IsUntouched k s'.system
    pub reads_missing : gone ≡ true → IsUntouched k s.system → b.read s'.system.queue.db k ≡ missing
    pub counts :
        (i : Bytes)
        → get_access_count s'.access_manager i
          ≡ (if gone && str_eq k i then 0 else get_access_count s.access_manager i)

  -- One after the other.
  Removes-after :
      (s s1 s2 : BadgerStorage D) (k : Bytes) (gone : Bool)
      → Removes s s1 k false
      → Removes s1 s2 k gone
      → Removes s s2 k gone
  Removes-after s s1 s2 k gone h u = record {
    nothing_new = λ idle. u.nothing_new (h.nothing_new idle);
    reads_missing = λ went idle. u.reads_missing went (h.nothing_new idle);
    counts = λ i. ground (arith, h.counts i, u.counts i);
  }

  existing-outstanding :
      (s : BadgerStorage D) (k : Bytes) (r : Result Bool)
      → outstanding (delete_existing b j s k r).0.system ≡ outstanding s.system
  unfolding delete_existing after_delete
  existing-outstanding s k (err e) = refl
  existing-outstanding s k (ok false) = refl
  existing-outstanding s k (ok true) = by_result (delete_loop b j max_retries s.system.queue.db k)
    where
      by_result :
          (r : D × Option DbError)
          → outstanding (after_delete b j s k r).0.system ≡ outstanding s.system
      by_result (db, none) = refl
      by_result (db, some e) = refl

  wait-IsUntouched :
      (gap es : List Event) (y : System D) (k : Bytes) (c : ℕ)
      → IsUntouched k y
      → IsUntouched k (wait_for_content_write b j gap es y k c).0
  unfolding wait_for_content_write
  wait-IsUntouched gap es y k c idle = elim (Bool-cases (is_content_in_queue y.queue k)) [
    | inl e ↦
        rw (e, wait_for_content_write)
          (run_worker-IsUntouched b j k _ es (run_worker-IsUntouched b j k y gap idle))
    | inr e ↦ rw (e, wait_for_content_write) idle
  ]

  existing-Removes :
      IsBadger b
      → (s : BadgerStorage D) (y : System D) (k : Bytes)
      → let out = delete_existing b j (with_system s y) k (content_exists b j y.queue.db k) in
        Removes (with_system s y) out.0 k (succeeded out.1)
  existing-Removes L s y k =
      let out = delete_existing b j (with_system s y) k (content_exists b j y.queue.db k) in
      let lem = λ (i : Bytes). delete_existing_lem b j L (with_system s y) k i in
      let same = existing-outstanding (with_system s y) k (content_exists b j y.queue.db k) in
      record {
        nothing_new = λ idle. ap (λ ts. names ts k) same ∙ idle;
        reads_missing = λ h idle.
            (lem k).0
            ∙ ap (λ t. if t && str_eq k k then missing else b.read y.queue.db k) h
            ∙ ap (λ t. if true && t then missing else b.read y.queue.db k) (str_eq_refl k);
        counts = λ i. (lem i).1;
      }

  -- What `delete` makes of its wait.
  abbrev deleted_after :
      BadgerStorage D → Bytes → System D × Option Error → BadgerStorage D × Option Error
  deleted_after s k (y, failure) = elim failure [
    | some e ↦ (with_system s y, some (delete_pending_write k e))
    | none ↦ delete_existing b j (with_system s y) k (content_exists b j y.queue.db k)
  ]

  delete-Removes :
      IsBadger b
      → (s : BadgerStorage D) (gap es : List Event) (k : Bytes) (c : ℕ)
      → let out = delete b j gap es s k c in Removes s out.0 k (succeeded out.1)
  unfolding delete
  delete-Removes L s gap es k c =
      by_wait (wait_for_content_write b j gap es s.system k c)
        (wait-IsUntouched gap es s.system k c)
    where
      by_wait :
          (w : System D × Option Error)
          → (IsUntouched k s.system → IsUntouched k w.0)
          → Removes s (deleted_after s k w).0 k (succeeded (deleted_after s k w).1)
      by_wait (y, none) keeps =
          Removes-after s (with_system s y) _ k _
            (record {
              nothing_new = keeps;
              reads_missing = λ h idle. absurd (cc h);
              counts = λ i. refl;
            })
            (existing-Removes L s y k)
      by_wait (y, some e) keeps = record {
        nothing_new = keeps;
        reads_missing = λ h idle. absurd (cc h);
        counts = λ i. refl;
      }

  -- Then the worker goes on.
  delete_in_storage-Removes :
      IsBadger b
      → IsReliable b
      → (m : Moment) (s : BadgerStorage D) (k : Bytes)
      → let out = delete_in_storage b j m s k in Removes s out.0 k (succeeded out.1)
  unfolding delete_in_storage
  delete_in_storage-Removes L reliable m s k =
      let h = delete-Removes L s m.gap m.events k m.channel in
      let y = (delete b j m.gap m.events s k m.channel).0.system in
      record {
        nothing_new = λ idle. run_worker-IsUntouched b j k y m.later (h.nothing_new idle);
        reads_missing = λ went idle.
            run_worker-read b j k L reliable y m.later (h.nothing_new idle)
            ∙ h.reads_missing went idle;
        counts = h.counts;
      }

  module _ (v : Validator) (x : Texts) (ms : ℕ → Moment × Moment) where
    abbrev st : Storage (BadgerStorage D) Moment
    st = badger_storage b j

    -- What an attempt makes of its wait for the write.
    abbrev after_write :
        ℕ → Bytes → Error → BadgerStorage D × Option Error → BadgerStorage D × Option DeleteFailure
    after_write n id e (s2, w) = elim w [
      | some late ↦ (s2, some (by_storage late))
      | none ↦ delete_attempts st v x ms n s2 id (some e)
    ]

    -- What an attempt makes of its delete.
    abbrev after_attempt :
        ℕ → Bytes → BadgerStorage D × Option Error → BadgerStorage D × Option DeleteFailure
    after_attempt n id (s1, r) = elim r [
      | none ↦ (s1, none)
      | some e ↦ elim (contains (message x e) (bytes "currently being written")) [
        | false ↦ (s1, some (by_storage e))
        | true ↦ after_write n id e (wait_in_storage b j (ms n).1 s1 id)
      ]
    ]

    -- The promise of the attempts that are left.
    abbrev Again : ℕ → Bytes → Type 0
    Again n id =
        (s : BadgerStorage D) (e : Error)
        → let out = delete_attempts st v x ms n s id (some e) in
          Removes s out.0 id (succeeded out.1)

    -- However the attempts end.
    attempts-Removes :
        IsBadger b
        → IsReliable b
        → (n : ℕ) (s : BadgerStorage D) (id : Bytes) (last : Option Error)
        → let out = delete_attempts st v x ms n s id last in Removes s out.0 id (succeeded out.1)
    unfolding delete_attempts badger_storage wait_in_storage
    attempts-Removes L reliable zero s id none = record {
      nothing_new = λ idle. idle;
      reads_missing = λ h idle. absurd (cc h);
      counts = λ i. refl;
    }
    attempts-Removes L reliable zero s id (some e) = record {
      nothing_new = λ idle. idle;
      reads_missing = λ h idle. absurd (cc h);
      counts = λ i. refl;
    }
    attempts-Removes L reliable (suc n) s id last =
        by_delete (λ s2 e. attempts-Removes L reliable n s2 id (some e))
          (delete_in_storage b j (ms n).0 s id) (delete_in_storage-Removes L reliable (ms n).0 s id)
      where
        by_delete :
            Again n id
            → (r : BadgerStorage D × Option Error) → Removes s r.0 id (succeeded r.1)
            → Removes s (after_attempt n id r).0 id (succeeded (after_attempt n id r).1)
        by_delete again (s1, none) h = h
        by_delete again (s1, some e) h =
            by_text (contains (message x e) (bytes "currently being written"))
          where
            by_written :
                (w : BadgerStorage D × Option Error)
                → Removes s1 w.0 id false
                → let out = after_write n id e w in Removes s out.0 id (succeeded out.1)
            by_written (s2, none) u =
                Removes-after s s1 (delete_attempts st v x ms n s2 id (some e)).0 id _ h
                  (Removes-after s1 s2 _ id _ u (again s2 e))
            by_written (s2, some late) u = Removes-after s s1 s2 id false h u

            by_text :
                (t : Bool)
                → let out : BadgerStorage D × Option DeleteFailure = elim t [
                  | false ↦ (s1, some (by_storage e))
                  | true ↦ after_write n id e (wait_in_storage b j (ms n).1 s1 id)
                ] in
                  Removes s out.0 id (succeeded out.1)
            by_text false = h
            by_text true = by_written (wait_in_storage b j (ms n).1 s1 id) (record {
              nothing_new =
                  wait-IsUntouched (ms n).1.gap (ms n).1.events s1.system id (ms n).1.channel;
              reads_missing = λ q idle. absurd (cc q);
              counts = λ i. refl;
            })

    abbrev tried : BadgerStorage D → Bytes → BadgerStorage D × Option DeleteFailure
    tried s id = delete_attempts st v x ms 3 s id none

    -- After a DELETE with its retries, on a database that takes every write, however its attempts
    -- end and whatever the worker does during the waits of the attempts and after each delete: if
    -- it is answered 200, and no task of the key was outstanding when it began, the key reads as
    -- missing, and none is outstanding for it; if it is answered 200 its key has no access count,
    -- and otherwise no count is lost; the counts of all other keys stay in both cases.
    pub delete_content-Removes :
        IsBadger b
        → IsReliable b
        → (s : BadgerStorage D) (id : Bytes)
        → let out = delete_content st v x ms s id in Removes s out.0 id (out.1.status == 200)
    unfolding delete_content delete_with_retry
    delete_content-Removes L reliable s id = elim (Option-cases (validate_id v.limits.limits id)) [
      | inl e ↦
          rw (e, delete_content)
            (subst (λ t. Removes s (tried s id).0 id t) (sym (deleted_status id (tried s id).1))
              (attempts-Removes L reliable 3 s id none))
      | inr (x, e) ↦
          rw (e, delete_content)
            (record {
              nothing_new = λ idle. idle;
              reads_missing = λ h idle. absurd (cc h);
              counts = λ i. refl;
            })
    ]
