-- ===== src/Storage/Queue.antt =====
-- The state of the write queue (pkg/storage/queue.go) and what it answers about itself. The
-- operations that change it are in the modules below.
pub mod Batch
pub mod Write
pub mod Worker
pub mod Flush
pub mod Steps
use content_storage_server.Prelude.{
  ◌%◌, ℕ, ◌+◌, ◌*◌, ◌≡◌, Bool, true, false, not, Option, none, some, List, [], ◌∷◌, Bytes, ltb,
  length, if◌then◌else◌,
}
use content_storage_server.Prelude.Int64.{Int64, add}
use content_storage_server.Prelude.Assoc
use content_storage_server.Prelude.Slots.{Slots, try_send}
use content_storage_server.Models.Content.{Content}
use content_storage_server.Storage.Error.{Error}
use content_storage_server.Storage.CountedSyncMap
use content_storage_server.Storage.CountedSyncMap.{CountedSyncMap}
use content_storage_server.Storage.Notify.{Notifications, new_notifications}

-- `marshaled_data` is none for a nil slice; `result_chan` is the number of the task's channel.
pub record WriteTask : Type 0 where
  pub content : Content
  pub marshaled_data : Option Bytes
  pub result_chan : Option ℕ

-- `queue_depth` stays zero here; `GetMetrics` fills it in.
pub record QueueMetrics : Type 0 where
  pub queue_depth : Int64
  pub total_queued : Int64
  pub total_processed : Int64
  pub total_errors : Int64
  pub processing_count : Int64

-- A buffered channel of tasks, oldest first.
pub record Chan : Type 0 where
  pub buffered : List WriteTask
  pub capacity : Int64

-- `write_queue` is none for the nil channel that `closeQueue` leaves; `results c` is the message that
-- waits in result channel `c`; `resize_pending` is whether `queueResizeCh` holds a message.
pub record Queue (D : Type 0) : Type 0 where
  pub write_queue : Option Chan
  pub max_queue_size : Int64
  pub max_batch_size : Int64
  pub stopped : Bool
  pub metrics : QueueMetrics
  pub db : D
  pub pending_items : CountedSyncMap WriteTask
  pub notifications : Notifications
  pub results : Slots (Option Error)
  pub resize_pending : Bool
  pub initial_queue_size : Int64
  pub max_multiplier : Int64

abbrev pub task_id : WriteTask → Bytes
task_id t = t.content.id

-- The tasks in the channel; a nil channel holds none.
abbrev pub queued : Option Chan → List WriteTask
queued none = []
queued (some c) = c.buffered

pub data HealthStatus : Type 0 where
  healthy degraded unhealthy : HealthStatus

module _ {D : Type 0} where
  unfoldable pub new_queued_write_batch : D → Int64 → Int64 → Queue D
  unfolding CountedSyncMap.new
  new_queued_write_batch db queue_size batch_size = record {
    write_queue = some (record { buffered = []; capacity = queue_size });
    max_queue_size = queue_size;
    max_batch_size = batch_size;
    stopped = false;
    metrics = record {
      queue_depth = 0;
      total_queued = 0;
      total_processed = 0;
      total_errors = 0;
      processing_count = 0;
    };
    db = db;
    pending_items = CountedSyncMap.new;
    notifications = new_notifications;
    results = λ c. none;
    resize_pending = false;
    initial_queue_size = queue_size;
    max_multiplier = 10;
  }

  unfoldable pub set_max_multiplier : Queue D → Int64 → Queue D
  set_max_multiplier q m = record q { max_multiplier = m }

  unfoldable pub is_running : Queue D → Bool
  is_running q = not q.stopped

  unfoldable pub is_content_in_queue : Queue D → Bytes → Bool
  unfolding CountedSyncMap.load
  is_content_in_queue q k = elim (CountedSyncMap.load q.pending_items k) [
    | none ↦ false
    | some t ↦ true
  ]

  unfoldable pub get_pending_content : Queue D → Bytes → Option WriteTask
  unfolding CountedSyncMap.load
  get_pending_content q k = CountedSyncMap.load q.pending_items k

  -- Nothing is iterated if the count is zero.
  unfoldable pub get_pending_content_ids : Queue D → List Bytes
  unfolding CountedSyncMap.is_empty CountedSyncMap.range
  get_pending_content_ids q =
      if CountedSyncMap.is_empty q.pending_items
      then []
      else Assoc.keys (CountedSyncMap.range q.pending_items)

  unfoldable pub get_pending_content_count : Queue D → Int64
  unfolding CountedSyncMap.count
  get_pending_content_count q = CountedSyncMap.count q.pending_items

  unfoldable pub get_actual_queue_depth : Queue D → ℕ
  get_actual_queue_depth q = length (queued q.write_queue)

  unfoldable pub get_metrics : Queue D → QueueMetrics
  unfolding get_actual_queue_depth
  get_metrics q = record q.metrics { queue_depth = get_actual_queue_depth q % 18446744073709551616 }

  -- depth / capacity > 0.8, over the integers.
  unfoldable pub get_health_status : Queue D → HealthStatus
  unfolding get_actual_queue_depth
  get_health_status q =
      if q.stopped
      then unhealthy
      else if ltb (4 * q.max_queue_size) (5 * get_actual_queue_depth q)
      then degraded
      else healthy

  unfoldable pub store_pending_item : Queue D → Bytes → WriteTask → Queue D
  unfolding CountedSyncMap.store
  store_pending_item q k t = record q {
    pending_items = (CountedSyncMap.store q.pending_items k t).0;
    metrics = record q.metrics { total_queued = add q.metrics.total_queued 1 };
  }

  unfoldable pub remove_pending_item : Queue D → Bytes → Queue D
  unfolding CountedSyncMap.delete
  remove_pending_item q k = record q { pending_items = CountedSyncMap.delete q.pending_items k }
