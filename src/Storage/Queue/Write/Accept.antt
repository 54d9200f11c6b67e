-- ===== src/Storage/Queue/Write/Accept.antt =====
-- `QueueWrite` of pkg/storage/queue.go: which writes are taken, and what a refusal leaves.
use content_storage_server.Prelude.{
  ℕ, ◌<◌, ◌≡◌, refl, inl, inr, Bool, true, false, not, ◌&&◌, ◌||◌, Option, none, some, [], ◌∷◌,
  ◌++◌, arith, Bytes, length-append, str_eq, if◌then◌else◌, ltb, Bool-cases,
}
use content_storage_server.Models.Content.{Content}
use content_storage_server.Storage.Badger.{Codec}
use content_storage_server.Storage.Error.{Error, shutting_down, at_maximum_capacity, queue_full}
use content_storage_server.Storage.CountedSyncMap.{load-store}
use content_storage_server.Storage.Queue.{
  Queue, Chan, WriteTask, task_id, queued, store_pending_item,
}
use content_storage_server.Storage.Queue.Batch.Pending.{pending}
use content_storage_server.Storage.Queue.Write.{
  has_room, push, try_enqueue, retry_enqueue, enqueue, queue_write, begin_write_sync,
}
use content_storage_server.Storage.Queue.Write.Capacity.{
  IsSized, limit, grown_queue, double_queue_capacity_lem, double_grows, grown-IsSized,
}

abbrev room : Option Chan → Bool
room none = false
room (some c) = has_room c

module _ {D : Type 0} where
  try_enqueue_full :
      (q : Queue D) (t : WriteTask) → room q.write_queue ≡ false → try_enqueue q t ≡ none
  unfolding try_enqueue
  try_enqueue_full q t h = ground arith

  try_enqueue_room :
      (q : Queue D) (c : Chan) (t : WriteTask)
      → q.write_queue ≡ some c
      → has_room c ≡ true
      → try_enqueue q t ≡ some (record q { write_queue = some (push c t) })
  unfolding try_enqueue
  try_enqueue_room q c t e r = rw e (ground (arith, r))

  -- There is room, or the queue runs and may still grow.
  abbrev pub takes : Queue D → Bool
  takes q = room q.write_queue || (not q.stopped && ltb q.max_queue_size (limit q))

  -- The state after task `t` was taken into a channel that has room.
  abbrev with_task : Queue D → Chan → WriteTask → Queue D
  with_task q c t = store_pending_item (record q { write_queue = some (push c t) }) (task_id t) t

  -- What it is to have taken a task.
  pub record Took (q : Queue D) (t : WriteTask) (q' : Queue D) : Type 0 where
    pub appended : queued q'.write_queue ≡ queued q.write_queue ++ t ∷ []
    pub now_pending :
        (k : Bytes) → pending q' k ≡ (if str_eq (task_id t) k then some t else pending q k)
    pub same_db : q'.db ≡ q.db
    pub same_size : q'.max_batch_size ≡ q.max_batch_size
    pub sized : IsSized q'

  with_task-Took :
      (q : Queue D) (c : Chan) (t : WriteTask)
      → q.write_queue ≡ some c
      → has_room c ≡ true
      → IsSized q
      → Took q t (with_task q c t)
  unfolding store_pending_item
  with_task-Took q c t e r s = record {
    appended = rw e;
    now_pending = λ k. load-store q.pending_items (task_id t) k t;
    same_db = refl;
    same_size = refl;
    sized = record {
      fits = ground (arith, s.fits, length-append c.buffered (t ∷ []));
      grown = s.grown;
      size_small = s.size_small;
      limit_small = s.limit_small;
    };
  }

  -- Why a full queue cannot grow.
  abbrev pub reason : Queue D → Error
  reason q = if q.stopped then shutting_down else at_maximum_capacity (limit q)

  enqueue_room :
      (q : Queue D) (c : Chan) (t : WriteTask)
      → q.write_queue ≡ some c
      → has_room c ≡ true
      → enqueue q t ≡ some (with_task q c t, none)
  unfolding enqueue
  enqueue_room q c t e r = rw (try_enqueue_room q c t e r, enqueue)

  -- The channel of a queue that has just grown.
  abbrev grown_chan : Queue D → Chan
  grown_chan q = record {
    buffered = queued q.write_queue;
    capacity = (grown_queue q).max_queue_size;
  }

  grown_room :
      (q : Queue D)
      → IsSized q
      → q.stopped ≡ false
      → q.max_queue_size < limit q
      → has_room (grown_chan q) ≡ true
  grown_room q s running h = ground (arith, s.fits, s.grown)

  enqueue_grows :
      (q : Queue D) (t : WriteTask)
      → IsSized q
      → room q.write_queue ≡ false
      → q.stopped ≡ false
      → q.max_queue_size < limit q
      → enqueue q t ≡ some (with_task (grown_queue q) (grown_chan q) t, none)
  unfolding enqueue
  enqueue_grows q t s full running h =
      rw (try_enqueue_full q t full, enqueue)
        (rw (double_grows q s running h, enqueue)
          (rw (
            try_enqueue_room (grown_queue q) (grown_chan q) t refl (grown_room q s running h),
            retry_enqueue,
          )))

  -- A grown queue before the task goes in differs from the old one in its channel only.
  grown-Took :
      (q : Queue D) (t : WriteTask)
      → IsSized q
      → q.stopped ≡ false
      → q.max_queue_size < limit q
      → Took q t (with_task (grown_queue q) (grown_chan q) t)
  unfolding store_pending_item
  grown-Took q t s running h =
      let took =
        with_task-Took (grown_queue q) (grown_chan q) t refl (grown_room q s running h)
          (grown-IsSized q s running h) in
      record {
        appended = took.appended;
        now_pending = took.now_pending;
        same_db = refl;
        same_size = refl;
        sized = took.sized;
      }

  -- A queue that takes writes takes this one: the call returns without an error, the task stands
  -- behind all others in the channel, it is the pending task of its key, and nothing else is written.
  pub enqueue-accepts :
      (q : Queue D) (t : WriteTask)
      → IsSized q
      → takes q ≡ true
      → (q' : Queue D) × (enqueue q t ≡ some (q', none)) × Took q t q'
  enqueue-accepts q t s h = by_room q.write_queue refl
    where
      grows :
          room q.write_queue ≡ false
          → (q' : Queue D) × (enqueue q t ≡ some (q', none)) × Took q t q'
      grows full =
          let running : q.stopped ≡ false = ground (arith, full, h) in
          let below : q.max_queue_size < limit q = ground (arith, full, h) in
          (
            with_task (grown_queue q) (grown_chan q) t,
            enqueue_grows q t s full running below,
            grown-Took q t s running below,
          )

      by_room :
          (o : Option Chan)
          → q.write_queue ≡ o
          → (q' : Queue D) × (enqueue q t ≡ some (q', none)) × Took q t q'
      by_room none e = grows (rw e)
      by_room (some c) e = elim (Bool-cases (has_room c)) [
        | inl r ↦ (with_task q c t, enqueue_room q c t e r, with_task-Took q c t e r s)
        | inr r ↦ grows (rw e r)
      ]

  -- Otherwise the call returns the reason, and the queue is as it was.
  pub enqueue-refuses :
      (q : Queue D) (t : WriteTask)
      → IsSized q
      → takes q ≡ false
      → enqueue q t ≡ some (q, some (queue_full q.max_queue_size (reason q)))
  unfolding enqueue retry_enqueue
  enqueue-refuses q t s h =
      let full : room q.write_queue ≡ false = ground (arith, h) in
      rw (try_enqueue_full q t full, enqueue)
        (rw (double_queue_capacity_lem q s) (ground (arith, full, h)))

-- The task that `QueueWrite` makes of a content that was marshaled to `v`.
abbrev pub async_task : Content → Bytes → WriteTask
async_task c v = record { content = c; marshaled_data = some v; result_chan = none }

abbrev pub sync_task : Content → Bytes → ℕ → WriteTask
sync_task c v r = record { content = c; marshaled_data = some v; result_chan = some r }

module _ {D : Type 0} (j : Codec) (q : Queue D) (c : Content) (v : Bytes)
    (coded : j.marshal c ≡ some v) where
  -- On a queue whose sizes are in order, and that has room or runs below its limit, `QueueWrite`
  -- of a content that can be marshaled returns no error; its task is the last in the channel and
  -- the pending one of its key, nothing else is queued, pending or written that was not before,
  -- and the sizes are in order again.
  pub queue_write-accepts :
      IsSized q
      → takes q ≡ true
      → (q' : Queue D) × (queue_write j q c ≡ some (q', none)) × Took q (async_task c v) q'
  unfolding queue_write
  queue_write-accepts s h = rw (coded, queue_write) (enqueue-accepts q (async_task c v) s h)

  -- On a queue whose sizes are in order, and that is full and stopped or at its limit,
  -- `QueueWrite` of a content that can be marshaled returns the reason, and the queue is as it
  -- was.
  pub queue_write-refuses :
      IsSized q
      → takes q ≡ false
      → queue_write j q c ≡ some (q, some (queue_full q.max_queue_size (reason q)))
  unfolding queue_write
  queue_write-refuses s h = rw (coded, queue_write) (enqueue-refuses q (async_task c v) s h)

  pub begin_write_sync-accepts :
      (r : ℕ)
      → IsSized q
      → takes q ≡ true
      → (q' : Queue D) × (begin_write_sync j q c r ≡ some (q', none)) × Took q (sync_task c v r) q'
  unfolding begin_write_sync
  begin_write_sync-accepts r s h =
      rw (coded, begin_write_sync) (enqueue-accepts q (sync_task c v r) s h)
