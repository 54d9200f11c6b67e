-- ===== src/Storage/Queue/Write.antt =====
-- How tasks enter the queue (pkg/storage/queue.go): `DoubleQueueCapacity`, `QueueWrite` and
-- `QueueWriteSync`. Each runs here without interruption. A result of none is a call that does not return: a send that blocks, or a panic on a negative size.
pub mod Capacity
pub mod Accept
use content_storage_server.Prelude.{
  ℕ, Bool, true, false, Option, none, some, List, [], ◌∷◌, ◌++◌, Bytes, ◌==◌, length, ltb,
  if◌then◌else◌,
}
use content_storage_server.Prelude.Int64.{Int64, mul, slt, sle}
use content_storage_server.Models.Content.{Content}
use content_storage_server.Storage.Badger.{Codec}
use content_storage_server.Storage.Error.{
  Error, marshal_content, shutting_down, at_maximum_capacity, queue_full, still_full,
  write_operation_timeout, wait_timeout,
}
use content_storage_server.Storage.Queue.{
  Queue, Chan, WriteTask, task_id, queued, store_pending_item, remove_pending_item,
  is_content_in_queue,
}

-- A send to the channel would not block.
abbrev pub has_room : Chan → Bool
has_room c = ltb (length c.buffered) c.capacity

abbrev pub push : Chan → WriteTask → Chan
push c t = record c { buffered = c.buffered ++ t ∷ [] }

-- The drain of the old channel into the new one; a full channel blocks the send for good.
unfoldable pub transfer : List WriteTask → Chan → Option Chan
transfer [] c = some c
transfer (t ∷ ts) c = elim (has_room c) [ true ↦ transfer ts (push c t) | false ↦ none ]

unfoldable pub new_capacity : Int64 → Int64 → Int64
new_capacity old max_allowed =
    let twice = mul old 2 in if slt max_allowed twice then max_allowed else twice

module _ {D : Type 0} where
  -- The swap of the channel, under its lock.
  unfoldable pub resize : Queue D → Int64 → Option (Queue D × Option Error)
  unfolding transfer
  resize q size =
      if slt size 0
      then none
      else (elim (transfer (queued q.write_queue) (record { buffered = []; capacity = size })) [
        | none ↦ none
        | some c ↦
            some (
              record q { write_queue = some c; max_queue_size = size; resize_pending = true },
              none,
            )
      ])

  unfoldable pub double_queue_capacity : Queue D → Option (Queue D × Option Error)
  unfolding resize new_capacity
  double_queue_capacity q =
      let max_allowed = mul q.initial_queue_size q.max_multiplier in
      if q.stopped
      then some (q, some shutting_down)
      else if sle max_allowed q.max_queue_size
      then some (q, some (at_maximum_capacity max_allowed))
      else resize q (new_capacity q.max_queue_size max_allowed)

  -- select { case queue <- task: default: }, on a channel that may be nil
  unfoldable pub try_enqueue : Queue D → WriteTask → Option (Queue D)
  try_enqueue q t = elim q.write_queue [
    | none ↦ none
    | some c ↦ if has_room c then some (record q { write_queue = some (push c t) }) else none
  ]

  -- The second attempt, after the capacity was doubled.
  unfoldable pub retry_enqueue : WriteTask → Queue D × Option Error → Queue D × Option Error
  unfolding try_enqueue store_pending_item
  retry_enqueue t (q, some e) = (q, some (queue_full q.max_queue_size e))
  retry_enqueue t (q, none) = elim (try_enqueue q t) [
    | some q' ↦ (store_pending_item q' (task_id t) t, none)
    | none ↦ (q, some (still_full q.max_queue_size))
  ]

  unfoldable pub enqueue : Queue D → WriteTask → Option (Queue D × Option Error)
  unfolding try_enqueue retry_enqueue double_queue_capacity store_pending_item
  enqueue q t = elim (try_enqueue q t) [
    | some q' ↦ some (store_pending_item q' (task_id t) t, none)
    | none ↦ elim (double_queue_capacity q) [ none ↦ none | some r ↦ some (retry_enqueue t r) ]
  ]

  unfoldable pub queue_write : Codec → Queue D → Content → Option (Queue D × Option Error)
  unfolding enqueue
  queue_write j q content = elim (j.marshal content) [
    | none ↦ some (q, some marshal_content)
    | some v ↦ enqueue q (record { content = content; marshaled_data = some v; result_chan = none })
  ]

  -- `QueueWriteSync` up to its wait, with the new channel `c`.
  unfoldable pub begin_write_sync : Codec → Queue D → Content → ℕ → Option (Queue D × Option Error)
  unfolding enqueue
  begin_write_sync j q content c = elim (j.marshal content) [
    | none ↦ some (q, some marshal_content)
    | some v ↦
        enqueue q (record { content = content; marshaled_data = some v; result_chan = some c })
  ]

  -- Its wait: the 30 seconds are over, or the answer is received; none if neither is so yet.
  unfoldable pub finish_write_sync : Queue D → Content → ℕ → Bool → Option (Queue D × Option Error)
  unfolding remove_pending_item
  finish_write_sync q content c true =
      some (remove_pending_item q content.id, some write_operation_timeout)
  finish_write_sync q content c false = elim (q.results c) [
    | none ↦ none
    | some r ↦ some (record q { results = λ d. if c == d then none else q.results d }, r)
  ]
