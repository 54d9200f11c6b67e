-- ===== src/Storage/Recovery/Saved.antt =====
-- What an emergency shutdown (pkg/storage/badger_close.go) leaves in the recovery directory.
use content_storage_server.Prelude.{
  ◌≡◌, ap, ◌∙◌, true, some, List, Bytes, str_eq, str_eq_refl, if◌then◌else◌,
}
use content_storage_server.Prelude.Assoc
use content_storage_server.Prelude.Assoc.{Assoc, IsMap}
use content_storage_server.Storage.CountedSyncMap
use content_storage_server.Storage.CountedSyncMap.{IsCounted}
use content_storage_server.Storage.CountedSyncMap.{load-store}
use content_storage_server.Storage.Queue.{Queue, queued}
use content_storage_server.Storage.Queue.Flush.{
  SerializableTask, serializable, emergency_stop, serialize_pending_tasks, serialize_write_queue,
}
use content_storage_server.Storage.Recovery.{
  Disk, Metadata, Formats, pending_file, queue_file, metadata_file, save_tasks,
  save_emergency_recovery_metadata, emergency_shutdown,
}
use content_storage_server.Storage.Recovery.Restore.{parsed}

-- Every write to the directory is taken, and a file reads as it was written last.
pub record IsDisk {F T : Type 0} (d : Disk F T) : Type 0 where
  pub read-write :
      (f : F) (name : Bytes) (x : T) (other : Bytes)
      → d.read (d.write f name x) other ≡ (if str_eq name other then some x else d.read f other)

-- What was encoded can be decoded.
pub record IsFormats {T : Type 0} (j : Formats T) : Type 0 where
  pub tasks_encode : (ts : List SerializableTask) → (x : T) × (j.marshal_tasks ts ≡ some x)
  pub tasks_decode :
      (ts : List SerializableTask) (x : T)
      → j.marshal_tasks ts ≡ some x
      → j.unmarshal_tasks x ≡ some (parsed ts)
  pub metadata_encode : (m : Metadata) → (x : T) × (j.marshal_metadata m ≡ some x)
  pub metadata_decode :
      (m : Metadata) (x : T) → j.marshal_metadata m ≡ some x → j.unmarshal_metadata x ≡ some m

module _ {F T : Type 0} (j : Formats T) (d : Disk F T) (ts : Bytes) where
  -- The three files of one shutdown.
  pub record Saved (f : F) (pending_tasks queued_tasks : List SerializableTask) : Type 0 where
    pub pending_text : T
    pub queue_text : T
    pub metadata_text : T
    pub reads_pending : d.read f (pending_file ts) ≡ some pending_text
    pub reads_queue : d.read f (queue_file ts) ≡ some queue_text
    pub reads_metadata : d.read f (metadata_file ts) ≡ some metadata_text
    pub pending_parses : j.unmarshal_tasks pending_text ≡ some (parsed pending_tasks)
    pub queue_parses : j.unmarshal_tasks queue_text ≡ some (parsed queued_tasks)
    pub metadata_parses :
        j.unmarshal_metadata metadata_text
        ≡ some (record {
          timestamp = ts;
          pending_checksum = j.checksum pending_text;
          queue_checksum = j.checksum queue_text;
        })

  save_tasks_lem :
      (name : Bytes) (x : T) (tasks : List SerializableTask) (f : F)
      → j.marshal_tasks tasks ≡ some x
      → save_tasks j d name tasks f ≡ (d.write f name x, j.checksum x)
  unfolding save_tasks
  save_tasks_lem name x tasks f e = rw (e, save_tasks)

  save_metadata_lem :
      (m : Metadata) (x : T) (f : F)
      → j.marshal_metadata m ≡ some x
      → save_emergency_recovery_metadata j d m f ≡ d.write f (metadata_file m.timestamp) x
  unfolding save_emergency_recovery_metadata
  save_metadata_lem m x f e = rw (e, save_emergency_recovery_metadata)

  -- The directory after three writes.
  abbrev three_files : F → T → T → T → F
  three_files f x y z =
      d.write (d.write (d.write f (pending_file ts) x) (queue_file ts) y) (metadata_file ts) z

  pub three_files_read :
      IsDisk d
      → (f : F) (x y z : T)
      → (d.read (three_files f x y z) (pending_file ts) ≡ some x)
        × (d.read (three_files f x y z) (queue_file ts) ≡ some y)
        × (d.read (three_files f x y z) (metadata_file ts) ≡ some z)
  unfolding str_eq
  three_files_read L f x y z =
      let f1 = d.write f (pending_file ts) x in
      let f2 = d.write f1 (queue_file ts) y in
      (
        L.read-write f2 (metadata_file ts) z (pending_file ts)
            ∙ L.read-write f1 (queue_file ts) y (pending_file ts)
            ∙ L.read-write f (pending_file ts) x (pending_file ts)
            ∙ ap (λ t. if t then some x else d.read f (pending_file ts))
                (str_eq_refl (pending_file ts)),
        L.read-write f2 (metadata_file ts) z (queue_file ts)
            ∙ L.read-write f1 (queue_file ts) y (queue_file ts)
            ∙ ap (λ t. if t then some y else d.read f1 (queue_file ts))
                (str_eq_refl (queue_file ts)),
        L.read-write f2 (metadata_file ts) z (metadata_file ts)
            ∙ ap (λ t. if t then some z else d.read f2 (metadata_file ts))
                (str_eq_refl (metadata_file ts)),
      )

  pub save-Saved :
      IsDisk d
      → IsFormats j
      → {D : Type 0} (f : F) (q : Queue D)
      → Saved
          (emergency_shutdown j d true ts f q).0.0
          (serializable (Assoc.values q.pending_items.items))
          (serializable (queued q.write_queue))
  unfolding emergency_shutdown emergency_stop serialize_pending_tasks serialize_write_queue
      CountedSyncMap.range
  save-Saved L J f q =
      let ps = serializable (Assoc.values q.pending_items.items) in
      let qs = serializable (queued q.write_queue) in
      let (x, ex) = J.tasks_encode ps in
      let (y, ey) = J.tasks_encode qs in
      let m : Metadata = record {
        timestamp = ts;
        pending_checksum = j.checksum x;
        queue_checksum = j.checksum y;
      } in
      let (z, ez) = J.metadata_encode m in
      let f1 = d.write f (pending_file ts) x in
      let f2 = d.write f1 (queue_file ts) y in
      let (rp, rq, rm) = three_files_read L f x y z in
      rw
        (
          save_tasks_lem (pending_file ts) x ps f ex,
          save_tasks_lem (queue_file ts) y qs f1 ey,
          save_metadata_lem m z f2 ez,
        )
        (record {
          pending_text = x;
          queue_text = y;
          metadata_text = z;
          reads_pending = rp;
          reads_queue = rq;
          reads_metadata = rm;
          pending_parses = J.tasks_decode ps x ex;
          queue_parses = J.tasks_decode qs y ey;
          metadata_parses = J.metadata_decode m z ez;
        })
