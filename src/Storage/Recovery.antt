-- ===== src/Storage/Recovery.antt =====
-- Emergency shutdown and recovery: pkg/storage/recovery.go, and `EmergencyShutdown` of
-- pkg/storage/badger_close.go. The recovery directory, the JSON of the three files and SHA-256 in
-- hexadecimal are parameters; the worker takes no step while either runs.
pub mod Latest
pub mod Restore
pub mod Saved
pub mod RoundTrip
use content_storage_server.Prelude.{
  ℕ, suc, ◌+◌, ◌-◌, Bool, true, false, not, ◌&&◌, ◌||◌, Option, none, some, List, [], ◌∷◌, ◌++◌,
  Bytes, bytes, is_empty, str_eq, has_prefix, has_suffix, ltb, leb, ◌==◌, length, take, drop,
  if◌then◌else◌,
}
use content_storage_server.Models.Content.{Content}
use content_storage_server.Storage.CountedSyncMap
use content_storage_server.Storage.Queue.{Queue, WriteTask}
use content_storage_server.Storage.Queue.Write.{try_enqueue}
use content_storage_server.Storage.Queue.Flush.{
  SerializableTask, emergency_stop, serialize_pending_tasks, serialize_write_queue,
}

-- The recovery directory, by the names in it; `T` is what a file holds. `archive f n` moves `n` to the processed ones.
pub record Disk (F T : Type 0) : Type 0 where
  pub has_directory : F → Bool
  pub entries : F → Option (List Bytes)
  pub exists : F → Bytes → Bool
  pub read : F → Bytes → Option T
  pub write : F → Bytes → T → F
  pub make_processed : F → F
  pub archive : F → Bytes → F

-- A task as it is parsed; its content may be null.
pub record RestoredTask : Type 0 where
  pub content : Option Content
  pub marshaled_data : Option Bytes

-- What the metadata file holds; the shutdown time and the names follow from the timestamp.
pub record Metadata : Type 0 where
  pub timestamp : Bytes
  pub pending_checksum : Bytes
  pub queue_checksum : Bytes

-- encoding/json for the files; a checksum that is missing is empty. crypto/sha256 and encoding/hex.
pub record Formats (T : Type 0) : Type 0 where
  pub marshal_tasks : List SerializableTask → Option T
  pub unmarshal_tasks : T → Option (List RestoredTask)
  pub marshal_metadata : Metadata → Option T
  pub unmarshal_metadata : T → Option Metadata
  pub checksum : T → Bytes

pub data RecoveryError : Type 0 where
  not_prepared directory_unreadable metadata_unreadable metadata_invalid : RecoveryError
  pending_checksum_mismatch pending_invalid queue_checksum_mismatch queue_invalid : RecoveryError

abbrev pub json_suffix : Bytes
json_suffix = bytes ".json"

abbrev pub pending_prefix : Bytes
pending_prefix = bytes "pending-items-"

abbrev pub pending_file : Bytes → Bytes
pending_file ts = pending_prefix ++ ts ++ json_suffix

abbrev pub queue_file : Bytes → Bytes
queue_file ts = bytes "write-queue-" ++ ts ++ json_suffix

abbrev pub metadata_file : Bytes → Bytes
metadata_file ts = bytes "recovery-metadata-" ++ ts ++ json_suffix

-- s < t of Go strings, byte by byte.
unfoldable pub str_ltb : Bytes → Bytes → Bool
str_ltb s [] = false
str_ltb [] (y ∷ t) = true
str_ltb (x ∷ s) (y ∷ t) = ltb x y || ((x == y) && str_ltb s t)

unfoldable pub extract_timestamp : Bytes → Bytes → Bytes → Bytes
extract_timestamp filename prefix suffix =
    let end = length filename - length suffix in
    if leb (length filename) (length prefix + length suffix)
    then []
    else if leb end (length prefix)
    then []
    else take (end - length prefix) (drop (length prefix) filename)

-- The timestamp of a file name, empty if it is no file of pending items.
unfoldable pub stamp : Bytes → Bytes
unfolding extract_timestamp
stamp name =
    if has_prefix name pending_prefix && has_suffix name json_suffix
    then extract_timestamp name pending_prefix json_suffix
    else []

-- The loop over the directory: the latest timestamp so far, and its file.
unfoldable pub latest_from : Bytes × Bytes → List Bytes → Bytes × Bytes
unfolding stamp str_ltb
latest_from latest [] = latest
latest_from latest (name ∷ names) =
    latest_from (if str_ltb latest.0 (stamp name) then (stamp name, name) else latest) names

unfoldable pub verify_checksum : {T : Type 0} → Formats T → T → Bytes → Bool
verify_checksum j x expected = is_empty expected || str_eq (j.checksum x) expected

module _ {F T : Type 0} (d : Disk F T) where
  -- A file is moved if it is there.
  abbrev pub archive_one : Bytes → F → F
  archive_one name f = if d.exists f name then d.archive f name else f

  unfoldable pub archive_recovered_files : Bytes → Bytes → Bytes → F → F
  archive_recovered_files pending queue metadata f =
      archive_one metadata (archive_one queue (archive_one pending (d.make_processed f)))

module _ {T : Type 0} (j : Formats T) {F : Type 0} (d : Disk F T) where
  -- A file of tasks that is written if they can be encoded, and its checksum.
  unfoldable pub save_tasks : Bytes → List SerializableTask → F → F × Bytes
  save_tasks name ts f = elim (j.marshal_tasks ts) [
    | none ↦ (f, [])
    | some x ↦ (d.write f name x, j.checksum x)
  ]

  unfoldable pub save_emergency_recovery_metadata : Metadata → F → F
  save_emergency_recovery_metadata m f = elim (j.marshal_metadata m) [
    | none ↦ f
    | some x ↦ d.write f (metadata_file m.timestamp) x
  ]

module _ {D : Type 0} where
  -- The loop of `restorePendingItems`; the new result channels are numbered from `n`.
  unfoldable pub restore_pending : ℕ → List RestoredTask → Queue D → Queue D
  unfolding CountedSyncMap.store
  restore_pending n [] q = q
  restore_pending n (t ∷ ts) q = elim t.content [
    | none ↦ restore_pending n ts q
    | some c ↦
        let task : WriteTask = record {
          content = c;
          marshaled_data = t.marshaled_data;
          result_chan = some n;
        } in
        restore_pending (suc n) ts
          (record q { pending_items = (CountedSyncMap.store q.pending_items c.id task).0 })
  ]

  -- What a non-blocking send leaves.
  abbrev pub sent_or_skipped : Queue D → Option (Queue D) → Queue D
  sent_or_skipped q none = q
  sent_or_skipped q (some q') = q'

  -- The loop of `restoreWriteQueue`: a task that finds the channel full is skipped.
  unfoldable pub restore_queue : ℕ → List RestoredTask → Queue D → Queue D
  unfolding try_enqueue
  restore_queue n [] q = q
  restore_queue n (t ∷ ts) q = elim t.content [
    | none ↦ restore_queue n ts q
    | some c ↦
        let task : WriteTask = record {
          content = c;
          marshaled_data = t.marshaled_data;
          result_chan = some n;
        } in
        restore_queue (suc n) ts (sent_or_skipped q (try_enqueue q task))
  ]

  module _ {T : Type 0} (j : Formats T) where
    -- One file of tasks: its check, and what is done with what it holds.
    unfoldable pub restore_file :
        RecoveryError
        → RecoveryError
        → (List RestoredTask → Queue D → Queue D)
        → Bytes
        → Option T
        → Queue D
        → Queue D × Option RecoveryError
    unfolding verify_checksum
    restore_file mismatch invalid restore expected none q = (q, none)
    restore_file mismatch invalid restore expected (some x) q =
        if verify_checksum j x expected
        then (elim (j.unmarshal_tasks x) [
          | none ↦ (q, some invalid)
          | some ts ↦ (restore ts q, none)
        ])
        else (q, some mismatch)

    module _ {F : Type 0} (d : Disk F T) where
      -- What follows the pending items.
      unfoldable pub recover_queue :
          ℕ
          → Bytes
          → Bytes
          → Bytes
          → Metadata
          → F
          → Queue D × Option RecoveryError
          → (F × Queue D) × Option RecoveryError
      unfolding restore_file restore_queue archive_recovered_files
      recover_queue n pending queue metadata m f (q, some e) = ((f, q), some e)
      recover_queue n pending queue metadata m f (q, none) =
          let (q', r) =
            restore_file queue_checksum_mismatch queue_invalid (restore_queue n) m.queue_checksum
              (d.read f queue) q in
          elim r [
            | some e ↦ ((f, q'), some e)
            | none ↦ ((archive_recovered_files d pending queue metadata f, q'), none)
          ]

      -- The numbers of the new channels of the queue's tasks come after those of the pending ones: `n`
      -- and `n'` are the first ones.
      unfoldable pub perform_emergency_recovery :
          ℕ → ℕ → Bytes → Bytes → Bytes → F → Queue D → (F × Queue D) × Option RecoveryError
      unfolding restore_file restore_pending recover_queue
      perform_emergency_recovery n n' pending queue metadata f q = elim (d.read f metadata) [
        | none ↦ ((f, q), some metadata_unreadable)
        | some x ↦ elim (j.unmarshal_metadata x) [
          | none ↦ ((f, q), some metadata_invalid)
          | some m ↦ recover_queue n' pending queue metadata m f (
              restore_file pending_checksum_mismatch pending_invalid (restore_pending n)
                m.pending_checksum (d.read f pending) q)
        ]
      ]

      -- The recovery of the latest set that is complete but for its metadata.
      unfoldable pub recover_latest :
          ℕ → ℕ → Bytes × Bytes → F → Queue D → (F × Queue D) × Option RecoveryError
      unfolding perform_emergency_recovery
      recover_latest n n' (ts, name) f q =
          if is_empty ts
          then ((f, q), none)
          else if d.exists f name && d.exists f (queue_file ts)
          then perform_emergency_recovery n n' name (queue_file ts) (metadata_file ts) f q
          else ((f, q), none)

      unfoldable pub recover_from_emergency_shutdown :
          Bool → ℕ → ℕ → F → Queue D → (F × Queue D) × Option RecoveryError
      unfolding recover_latest latest_from
      recover_from_emergency_shutdown configured n n' f q =
          if not configured
          then ((f, q), none)
          else if not (d.has_directory f)
          then ((f, q), none)
          else (elim (d.entries f) [
            | none ↦ ((f, q), some directory_unreadable)
            | some names ↦ recover_latest n n' (latest_from ([], []) names) f q
          ])

      -- `EmergencyShutdown` at the time `ts`; it waits for nothing.
      unfoldable pub emergency_shutdown :
          Bool → Bytes → F → Queue D → (F × Queue D) × Option RecoveryError
      unfolding emergency_stop serialize_pending_tasks serialize_write_queue save_tasks
          save_emergency_recovery_metadata
      emergency_shutdown prepared ts f q =
          let stopped = emergency_stop q in
          let (f1, pending_sum) =
            save_tasks j d (pending_file ts) (serialize_pending_tasks stopped) f in
          let (q', tasks) = serialize_write_queue stopped in
          let (f2, queue_sum) = save_tasks j d (queue_file ts) tasks f1 in
          let f3 =
            save_emergency_recovery_metadata j d
              (record {
                timestamp = ts;
                pending_checksum = pending_sum;
                queue_checksum = queue_sum;
              })
              f2 in
          if prepared then ((f3, q'), none) else ((f, stopped), some not_prepared)
