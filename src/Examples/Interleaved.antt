-- ===== src/Examples/Interleaved.antt =====
-- Runs of interleaved steps: one in order, one that turns two writes round, and a late pending item.
use content_storage_server.Prelude.{◌≡◌, refl, true, false, none, some, List, [], ◌∷◌, arith, Bytes}
use content_storage_server.Prelude.Assoc.{Assoc}
use content_storage_server.Storage.Queue.{Queue, task_id}
use content_storage_server.Storage.Queue.Batch.Pending.{pending}
use content_storage_server.Storage.Queue.Batch.Durable.{apply_task, apply_tasks}
use content_storage_server.Storage.Queue.Write.{try_enqueue, new_capacity}
use content_storage_server.Storage.Queue.Worker.{Event, run_worker}
use content_storage_server.Storage.Queue.Worker.Eventual.{outstanding}
use content_storage_server.Storage.Queue.Worker.Bounds.{IsWorking}
use content_storage_server.Storage.Queue.Steps.{
  Shared, send, swap, take_old, Run, here, next, after_send, after_swap,
}
use content_storage_server.Storage.Queue.Steps.InOrder.{final, run_in_order}
use content_storage_server.Storage.Queue.Steps.Races.{growing_may_reorder, stored_too_late}
use content_storage_server.Examples.{
  memory, plain, memory-IsBadger, memory-IsReliable, a_task, b_task, start, one_stored,
}

-- Nothing queued, with room for two.
abbrev quiet : Shared (Assoc Bytes)
quiet = record { system = one_stored.system; storing = []; old = none; on_old = false }

abbrev a_sent : Queue (Assoc Bytes)
a_sent = record one_stored.system.queue {
  write_queue = some (record { buffered = a_task ∷ []; capacity = 2 });
}

a_sent_lem : try_enqueue quiet.system.queue a_task ≡ some a_sent
unfolding try_enqueue
a_sent_lem = refl

-- The channel grows at once, and the worker takes the task from the old one.
abbrev swapped : Shared (Assoc Bytes)
swapped = after_swap (after_send quiet a_task a_sent) true

a_run : (u : Shared (Assoc Bytes)) × Run memory plain quiet (a_task ∷ []) u
a_run = (
  _,
  next
      (next (next here (send quiet a_task a_sent refl a_sent_lem))
        (swap (after_send quiet a_task a_sent) true refl refl refl))
      (take_old swapped a_task [] refl refl refl),
)

run_in_order_example :
    final memory plain a_run.0 ≡ apply_tasks plain (final memory plain quiet) (a_task ∷ [])
unfolding a_run
run_in_order_example =
    run_in_order memory plain memory-IsBadger memory-IsReliable a_run.1 (((tt, tt), tt), refl)

-- A full channel, at which the worker waits.
abbrev full : Shared (Assoc Bytes)
full = record { system = start; storing = []; old = none; on_old = false }

growing_may_reorder_example :
    (u : Shared (Assoc Bytes)) × Run memory plain full [] u
    × (final memory plain u ≡ apply_tasks plain (memory.read []) (b_task ∷ a_task ∷ []))
unfolding new_capacity
growing_may_reorder_example =
    growing_may_reorder memory plain memory-IsBadger memory-IsReliable full
      (record { buffered = a_task ∷ b_task ∷ []; capacity = 2 }) a_task b_task [] refl refl refl
      refl refl refl refl

quiet-IsWorking : IsWorking quiet.system
quiet-IsWorking = record {
  positive = omega arith;
  signed = omega arith;
  below = omega arith;
  timed = refl;
}

stored_too_late_example :
    (u : Shared (Assoc Bytes)) × Run memory plain quiet (a_task ∷ []) u
    × (u.storing ≡ [])
    × (outstanding u.system ≡ [])
    × (memory.read u.system.queue.db ≡ apply_task plain (memory.read quiet.system.queue.db) a_task)
    × ((es : List Event)
        → pending (run_worker memory plain u.system es).queue (task_id a_task) ≡ some a_task)
stored_too_late_example =
    stored_too_late memory plain memory-IsBadger memory-IsReliable quiet a_task a_sent refl refl
      refl refl quiet-IsWorking refl a_sent_lem
