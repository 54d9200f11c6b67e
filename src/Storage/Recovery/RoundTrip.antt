-- ===== src/Storage/Recovery/RoundTrip.antt =====
-- What pkg/storage/recovery.go restores of what an emergency shutdown (pkg/storage/badger_close.go)
-- saved.
use content_storage_server.Prelude.{
  ℕ, ◌≤◌, ◌≡◌, ap, ◌∙◌, true, Option, none, some, List, [], ◌++◌, arith, Bytes, str_eq_refl, ◌⊎◌,
  length,
}
use content_storage_server.Prelude.Assoc
use content_storage_server.Prelude.Assoc.{Assoc, IsMap}
use content_storage_server.Storage.CountedSyncMap
use content_storage_server.Storage.CountedSyncMap.{IsCounted}
use content_storage_server.Storage.CountedSyncMap.{load-store}
use content_storage_server.Storage.Queue.{Queue, Chan, queued}
use content_storage_server.Storage.Queue.Batch.Pending.{pending, IsQueueCounted}
use content_storage_server.Storage.Queue.Flush.{SerializableTask, serializable}
use content_storage_server.Storage.Queue.Flush.Forced.{IsKeyed}
use content_storage_server.Storage.Recovery.{
  pending_checksum_mismatch, pending_invalid, queue_checksum_mismatch, queue_invalid, RecoveryError,
  Disk, RestoredTask, Formats, pending_file, queue_file, metadata_file, verify_checksum,
  restore_pending, restore_queue, restore_file, archive_recovered_files, recover_queue,
  perform_emergency_recovery, emergency_shutdown,
}
use content_storage_server.Storage.Recovery.Restore.{
  saved_at, parsed, over, pending_saved, restore_pending_lem, restore_queue_lem,
  restore_pending-queue, restore_queue-pending,
}
use content_storage_server.Storage.Recovery.Saved.{IsDisk, IsFormats, Saved, save-Saved}

-- An empty checksum is not compared.
abbrev pub Matches : {T : Type 0} → Formats T → T → Bytes → Type 0
Matches j x expected = (expected ≡ []) ⊎ (j.checksum x ≡ expected)

checksum_matches : {T : Type 0} (j : Formats T) (x : T) → verify_checksum j x (j.checksum x) ≡ true
unfolding verify_checksum
checksum_matches j x = ground (arith, str_eq_refl (j.checksum x))

module _ {D T : Type 0} (j : Formats T) where
  restore_file_lem :
      (mismatch invalid : RecoveryError) (restore : List RestoredTask → Queue D → Queue D) (x : T)
      (tasks : List RestoredTask) (q : Queue D)
      → j.unmarshal_tasks x ≡ some tasks
      → restore_file j mismatch invalid restore (j.checksum x) (some x) q ≡ (restore tasks q, none)
  unfolding restore_file
  restore_file_lem mismatch invalid restore x tasks q e =
      rw (checksum_matches j x, restore_file) (rw (e, restore_file))

  module _ {F : Type 0} (d : Disk F T) (ts : Bytes) where
    -- The recovery of the files of `ts`.
    abbrev pub recovered : ℕ → ℕ → F → Queue D → (F × Queue D) × Option RecoveryError
    recovered n n' f q =
        perform_emergency_recovery j d n n' (pending_file ts) (queue_file ts) (metadata_file ts) f q

    -- `recover_queue` once the file of the queue is read.
    abbrev after_queue : F → Queue D × Option RecoveryError → (F × Queue D) × Option RecoveryError
    after_queue f (q, r) = elim r [
      | some e ↦ ((f, q), some e)
      | none ↦ (
        (archive_recovered_files d (pending_file ts) (queue_file ts) (metadata_file ts) f, q),
        none,
      )
    ]

    perform_lem :
        (n n' : ℕ) (f : F) (ps qs : List SerializableTask) (q : Queue D)
        → Saved j d ts f ps qs
        → recovered n n' f q ≡ (
          (
            archive_recovered_files d (pending_file ts) (queue_file ts) (metadata_file ts) f,
            restore_queue n' (parsed qs) (restore_pending n (parsed ps) q),
          ),
          none,
        )
    unfolding perform_emergency_recovery recover_queue
    perform_lem n n' f ps qs q s =
        let q1 = restore_pending n (parsed ps) q in
        let of_queue : restore_file j queue_checksum_mismatch queue_invalid (restore_queue n')
              (j.checksum s.queue_text) (d.read f (queue_file ts)) q1
            ≡ (restore_queue n' (parsed qs) q1, none) =
          ap
            (λ o.
              restore_file j queue_checksum_mismatch queue_invalid (restore_queue n')
                (j.checksum s.queue_text) o q1)
            s.reads_queue
          ∙ restore_file_lem queue_checksum_mismatch queue_invalid (restore_queue n') s.queue_text
              (parsed qs) q1 s.queue_parses in
        rw (s.reads_metadata, perform_emergency_recovery)
          (rw (s.metadata_parses, perform_emergency_recovery)
            (rw
              (
                s.reads_pending,
                restore_file_lem pending_checksum_mismatch pending_invalid (restore_pending n)
                    s.pending_text (parsed ps) q s.pending_parses,
              )
              (ap (after_queue f) of_queue)))

    -- On a directory that takes every write, with encodings that can be decoded, an emergency
    -- shutdown of a queue whose items are pending under their own identifiers, and the recovery
    -- of its files into a queue with an empty channel of sufficient capacity: the recovery ends
    -- without an error, the channel holds the same tasks in the same order, each key that was
    -- pending has the same task again, and every other key has what it had; only the result
    -- channels are new.
    pub shutdown_then_recover :
        IsDisk d
        → IsFormats j
        → (f : F) (q q0 : Queue D) (c : Chan) (n n' : ℕ) → IsQueueCounted q
        → IsKeyed q
        → q0.write_queue ≡ some c
        → c.buffered ≡ []
        → length (queued q.write_queue) ≤ c.capacity
        → let out = recovered n n' (emergency_shutdown j d true ts f q).0.0 q0 in
          (out.1 ≡ none)
          × (serializable (queued out.0.1.write_queue) ≡ serializable (queued q.write_queue))
          × ((k : Bytes) → pending_saved out.0.1 k ≡ over (pending q k) (pending_saved q0 k))
    unfolding serializable CountedSyncMap.load
    shutdown_then_recover L J f q q0 c n n' counted keyed channel fresh fits =
        let ps = serializable (Assoc.values q.pending_items.items) in
        let qs = serializable (queued q.write_queue) in
        let f' = (emergency_shutdown j d true ts f q).0.0 in
        let q1 = restore_pending n (parsed ps) q0 in
        let same = perform_lem n n' f' ps qs q0 (save-Saved j d ts L J f q) in
        let room =
          restore_queue_lem (queued q.write_queue) n' q1 c (restore_pending-queue ps n q0 ∙ channel)
            (omega (arith, fits, ap length fresh)) in
        (
          ap (λ r. r.1) same,
          ap (λ r. serializable (queued r.0.1.write_queue)) same
              ∙ room
              ∙ ap (λ ts. serializable ts ++ qs) fresh,
          λ k.
              ap (λ r. pending_saved r.0.1 k) same
              ∙ ap (λ items. saved_at (CountedSyncMap.load items k))
                  (restore_queue-pending qs n' q1)
              ∙ restore_pending_lem q.pending_items.items n q0 k counted.is_map keyed,
        )
