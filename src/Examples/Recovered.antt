-- ===== src/Examples/Recovered.antt =====
-- An emergency shutdown and the recovery from its files, in a directory in memory.
use content_storage_server.Prelude.{
  ◌≡◌, refl, sym, ap, true, Option, none, some, List, [], ◌∷◌, arith, Bytes, bytes,
}
use content_storage_server.Prelude.Assoc
use content_storage_server.Prelude.Assoc.{Assoc}
use content_storage_server.Storage.Queue.{Queue, queued}
use content_storage_server.Storage.Queue.Batch.Pending.{pending}
use content_storage_server.Storage.Queue.Flush.{SerializableTask, serializable}
use content_storage_server.Storage.Recovery.{
  Disk, RestoredTask, Metadata, Formats, emergency_shutdown, pending_file, queue_file,
  metadata_file,
}
use content_storage_server.Storage.Recovery.Restore.{parsed, over, pending_saved}
use content_storage_server.Storage.Recovery.Saved.{IsDisk, IsFormats}
use content_storage_server.Storage.Recovery.RoundTrip.{recovered, shutdown_then_recover}
use content_storage_server.Examples.{
  full_queue-IsKeyed, a_task, b_task, two_pending-IsCounted, full_queue, one_stored,
}

-- What a file holds.
data Text : Type 0 where
  tasks : List SerializableTask → Text
  metadata : Metadata → Text

abbrev task_list : Text → Option (List RestoredTask)
task_list (tasks ts) = some (parsed ts)
task_list (metadata m) = none

abbrev metadata_of : Text → Option Metadata
metadata_of (tasks ts) = none
metadata_of (metadata m) = some m

-- A checksum that tells the two kinds of files apart.
abbrev kind : Text → Bytes
kind (tasks ts) = bytes "tasks"
kind (metadata m) = bytes "metadata"

abbrev formats : Formats Text
formats = record {
  marshal_tasks = λ ts. some (tasks ts);
  unmarshal_tasks = task_list;
  marshal_metadata = λ m. some (metadata m);
  unmarshal_metadata = metadata_of;
  checksum = kind;
}

abbrev directory : Disk (Assoc Text) Text
directory = record {
  has_directory = λ f. true;
  entries = λ f. some (Assoc.keys f);
  exists = λ f n. Assoc.has f n;
  read = λ f n. Assoc.get f n;
  write = λ f n x. Assoc.put f n x;
  make_processed = λ f. f;
  archive = λ f n. Assoc.remove f n;
}

directory-IsDisk : IsDisk directory
directory-IsDisk = record { read-write = λ f n x m. Assoc.get-put f n m x }

formats-IsFormats : IsFormats formats
formats-IsFormats = record {
  tasks_encode = λ ts. (tasks ts, refl);
  tasks_decode = λ ts x e. let same : tasks ts ≡ x = cc e in ap task_list (sym same);
  metadata_encode = λ m. (metadata m, refl);
  metadata_decode = λ m x e. let same : metadata m ≡ x = cc e in ap metadata_of (sym same);
}

abbrev noon : Bytes
noon = bytes "20240101-120000"

abbrev saved_files : Assoc Text
saved_files = (emergency_shutdown formats directory true noon [] full_queue).0.0

abbrev fresh : Queue (Assoc Bytes)
fresh = one_stored.system.queue

shutdown_then_recover_example :
    let out = recovered formats directory noon 20 30 saved_files fresh in
    (out.1 ≡ none)
    × (serializable (queued out.0.1.write_queue) ≡ serializable (queued full_queue.write_queue))
    × ((k : Bytes) → pending_saved out.0.1 k ≡ over (pending full_queue k) (pending_saved fresh k))
shutdown_then_recover_example =
    shutdown_then_recover formats directory noon directory-IsDisk formats-IsFormats [] full_queue
      fresh (record { buffered = []; capacity = 2 }) 20 30 two_pending-IsCounted full_queue-IsKeyed
      refl refl (omega arith)

-- The checksum of the queue's file is wrong.
abbrev wrong_queue : Metadata
wrong_queue = record {
  timestamp = noon;
  pending_checksum = bytes "tasks";
  queue_checksum = bytes "something else";
}

abbrev damaged : Assoc Text
damaged =
    (pending_file noon, tasks (serializable (a_task ∷ [])))
    ∷ (queue_file noon, tasks (serializable (b_task ∷ [])))
    ∷ (metadata_file noon, metadata wrong_queue)
    ∷ []
