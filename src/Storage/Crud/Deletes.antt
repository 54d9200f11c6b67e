-- ===== src/Storage/Crud/Deletes.antt =====
-- Deletes of pkg/storage/badger_CRUD.go, with their retries.
use content_storage_server.Prelude.{
  ℕ, zero, suc, ◌<◌, ◌≡◌, refl, inl, inr, Bool, true, false, ◌&&◌, Option, none, some, arith, Bytes,
  str_eq, if◌then◌else◌, Option-cases,
}
use content_storage_server.Storage.Badger.{Badger, Codec, IsBadger, Lookup, missing}
use content_storage_server.Storage.Error.{DbError, Result, ok, err}
use content_storage_server.Storage.Access.{get_access_count}
use content_storage_server.Storage.Access.Laws.{get-remove_access}
use content_storage_server.Storage.Crud.{
  BadgerStorage, content_exists, delete_loop, after_delete, delete_existing,
}

abbrev pub is_none : Option DbError → Bool
is_none none = true
is_none (some e) = false

-- What a key reads as after a delete of `k` that ended with `r`.
abbrev pub without : Option DbError → Bytes → Bytes → Lookup → Lookup
without r k i x = if is_none r && str_eq k i then missing else x

abbrev pub succeeded {ℓ} : {A : Type ℓ} → Option A → Bool
succeeded none = true
succeeded (some e) = false

module _ {D B : Type 0} (b : Badger D B) (j : Codec) where
  delete_once :
      (L : IsBadger b) (db : D) (k i : Bytes)
      → b.read (b.delete db k).0 i ≡ without (b.delete db k).1 k i (b.read db i)
  delete_once L db k i = elim (Option-cases (b.delete db k).1) [
    | inl e ↦ rw e (L.read-delete db k e i)
    | inr (x, e) ↦ rw e (L.read-delete_failed db k x e i)
  ]

  -- However many of the attempts conflict: after the loop the key is gone if it ended without an
  -- error, and no other key has changed; after an error nothing has changed.
  pub delete_loop_lem :
      IsBadger b
      → (attempts : ℕ) (db : D) (k i : Bytes) → 0 < attempts
      → b.read (delete_loop b j attempts db k).0 i
        ≡ without (delete_loop b j attempts db k).1 k i (b.read db i)
  unfolding delete_loop
  delete_loop_lem L zero db k i h = absurd (omega arith)
  delete_loop_lem L (suc attempts) db k i h =
      ground (arith, delete_once L db k i, delete_loop_lem L attempts (b.delete db k).0 k i)

  after_delete_lem :
      (s : BadgerStorage D) (k i : Bytes) (r : D × Option DbError) (x : Lookup)
      → b.read r.0 i ≡ without r.1 k i x
      → let out = after_delete b j s k r in
        (b.read out.0.system.queue.db i ≡ (if succeeded out.1 && str_eq k i then missing else x))
        × (get_access_count out.0.access_manager i
            ≡ (if succeeded out.1 && str_eq k i then 0 else get_access_count s.access_manager i))
  unfolding after_delete
  after_delete_lem s k i (db, none) x h = (h, get-remove_access s.access_manager k i)
  after_delete_lem s k i (db, some e) x h = (h, refl)

  -- A delete of a key, after any wait for a pending write, either succeeds, and then the key
  -- reads as missing and has no access count, or returns an error, and then nothing reads or
  -- counts differently; every other key is as it was in both cases.
  pub delete_existing_lem :
      IsBadger b
      → (s : BadgerStorage D) (k i : Bytes)
      → let out = delete_existing b j s k (content_exists b j s.system.queue.db k) in
        (b.read out.0.system.queue.db i
          ≡ (if succeeded out.1 && str_eq k i then missing else b.read s.system.queue.db i))
        × (get_access_count out.0.access_manager i
            ≡ (if succeeded out.1 && str_eq k i then 0 else get_access_count s.access_manager i))
  unfolding delete_existing
  delete_existing_lem L s k i = by_result (content_exists b j s.system.queue.db k)
    where
      by_result :
          (r : Result Bool)
          → let out = delete_existing b j s k r in
            (b.read out.0.system.queue.db i
              ≡ (if succeeded out.1 && str_eq k i then missing else b.read s.system.queue.db i))
            × (get_access_count out.0.access_manager i ≡ (
                if succeeded out.1 && str_eq k i then 0 else get_access_count s.access_manager i))
      by_result (err e) = (refl, refl)
      by_result (ok false) = (refl, refl)
      by_result (ok true) =
          after_delete_lem s k i (delete_loop b j 5 s.system.queue.db k)
            (b.read s.system.queue.db i) (delete_loop_lem L 5 s.system.queue.db k i (omega arith))
