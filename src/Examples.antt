-- ===== src/Examples.antt =====
-- The theorems at concrete inputs: a database and an encoding that are computed with, and the states
-- that the examples start from.
pub mod Writes
pub mod Reads
pub mod Parts
pub mod Requests
pub mod Answered
pub mod Recovered
pub mod Lifecycle
pub mod Kept
pub mod Interleaved
pub mod Served
pub mod Maintained
pub mod Looped
use content_storage_server.Prelude.{
  ℕ, ◌≡◌, refl, Bool, true, false, Option, none, some, List, [], ◌∷◌, arith, Bytes, bytes, str_eq,
  str_eq_iff, length, if◌then◌else◌,
}
use content_storage_server.Prelude.Assoc
use content_storage_server.Prelude.Assoc.{Assoc}
use content_storage_server.Models.Content.{Content}
use content_storage_server.Storage.Error.{DbError, Error, Result, ok}
use content_storage_server.Storage.Badger.{
  Badger, Codec, IsBadger, Item, Lookup, found, missing, overlay,
}
use content_storage_server.Storage.CountedSyncMap
use content_storage_server.Storage.Queue.Flush.Forced.{IsKeyed}
use content_storage_server.Storage.CountedSyncMap.{CountedSyncMap, IsCounted}
use content_storage_server.Storage.Access.{AccessManager}
use content_storage_server.Storage.Crud.{BadgerStorage}
use content_storage_server.Storage.Notify.{new_notifications}
use content_storage_server.Storage.Queue.{Queue, WriteTask}
use content_storage_server.Storage.Queue.Batch.Durable.{IsReliable}
use content_storage_server.Storage.Queue.Worker.{System, running}

abbrev lookup : Option Bytes → Lookup
lookup none = missing
lookup (some v) = found v

abbrev merge : Assoc Bytes → Assoc Bytes → Assoc Bytes
merge [] d = d
merge ((k, v) ∷ w) d = Assoc.put (merge w d) k v

abbrev pub items : Assoc Bytes → List Item
items [] = []
items ((k, v) ∷ d) = record { key = k; value = ok v } ∷ items d

-- A database in memory that takes every write.
abbrev pub memory : Badger (Assoc Bytes) (Assoc Bytes)
memory = record {
  read = λ d k. lookup (Assoc.get d k);
  scan = λ d. ok (items d);
  new_write_batch = λ d. [];
  set = λ w k v. (Assoc.put w k v, none);
  flush = λ d w. (merge w d, none);
  delete = λ d k. (Assoc.remove d k, none);
}

get-merge :
    (w d : Assoc Bytes) (k : Bytes)
    → lookup (Assoc.get (merge w d) k) ≡ overlay (Assoc.get w k) (lookup (Assoc.get d k))
unfolding Assoc.get
get-merge [] d k = refl
get-merge ((j, v) ∷ w) d k = ground (arith, get-merge w d k, Assoc.get-put (merge w d) j k v)

pub memory-IsBadger : IsBadger memory
unfolding Assoc.get
memory-IsBadger = record {
  writes = λ w k. Assoc.get w k;
  writes-new = λ d k. refl;
  writes-set = λ w k v e j. Assoc.get-put w k j v;
  writes-set_failed = λ w k v x e j. absurd (ground (arith, e));
  read-flush = λ d w e k. get-merge w d k;
  read-delete = λ d k e j. ground (arith, Assoc.get-remove d k j);
  read-delete_failed = λ d k x e j. absurd (ground (arith, e));
}

pub memory-IsReliable : IsReliable memory
memory-IsReliable = record { set_ok = λ w k v. refl; flush_ok = λ d w. refl }

-- A content that is its identifier, and may be read twice.
abbrev pub content_of : Bytes → Content
content_of k = record {
  id = k;
  payload = k;
  content_type = bytes "text/plain";
  tag = [];
  created_at = 5;
  expires_at = some 100;
  access_limit = some 2;
}

abbrev pub plain : Codec
plain = record { marshal = λ c. some c.id; unmarshal = λ v. some (content_of v) }

abbrev pub a_key : Bytes
a_key = bytes "a"

abbrev pub b_key : Bytes
b_key = bytes "b"

-- A task without and one with a result channel.
abbrev pub a_task : WriteTask
a_task = record { content = content_of a_key; marshaled_data = some a_key; result_chan = none }

abbrev pub b_task : WriteTask
b_task = record { content = content_of b_key; marshaled_data = none; result_chan = some 7 }

abbrev pub two_pending : CountedSyncMap WriteTask
two_pending = record { items = (a_key, a_task) ∷ (b_key, b_task) ∷ []; total = 2 }

pub two_pending-IsCounted : IsCounted two_pending
unfolding Assoc.has Assoc.get str_eq
two_pending-IsCounted = record { is_map = (refl, (refl, tt)); counted = refl }

-- Two tasks in a channel of two, which may grow to six.
abbrev pub full_queue : Queue (Assoc Bytes)
full_queue = record {
  write_queue = some (record { buffered = a_task ∷ b_task ∷ []; capacity = 2 });
  max_queue_size = 2;
  max_batch_size = 2;
  stopped = false;
  metrics = record {
    queue_depth = 0;
    total_queued = 2;
    total_processed = 0;
    total_errors = 0;
    processing_count = 0;
  };
  db = [];
  pending_items = two_pending;
  notifications = new_notifications;
  results = λ c. none;
  resize_pending = false;
  initial_queue_size = 2;
  max_multiplier = 3;
}

pub full_queue-IsKeyed : IsKeyed full_queue
unfolding CountedSyncMap.load Assoc.get
full_queue-IsKeyed k = ground (arith, str_eq_iff a_key k, str_eq_iff b_key k)

abbrev pub start : System (Assoc Bytes)
start = record { queue = full_queue; batch = []; timer = false; phase = running }

-- One stored content, read once so far.
abbrev pub one_stored : BadgerStorage (Assoc Bytes)
one_stored = record {
  system = record start {
    queue = record full_queue {
      write_queue = some (record { buffered = []; capacity = 2 });
      db = (a_key, a_key) ∷ [];
      pending_items = record { items = []; total = 0 };
    };
  };
  access_manager = record {
    access_trackers = (a_key, record { tracked_id = a_key; access_count = 1 }) ∷ [];
    last_cleanup_time = 0;
    cleanup_interval = 10;
  };
}
