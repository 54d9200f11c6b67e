-- ===== src/Storage/Queue/Steps.antt =====
-- The operations of pkg/storage/queue.go interleaved: writers, a growing of the channel and the worker
-- take turns between the places where they hold no lock. A writer sends first and stores its pending
-- item later; a growing moves the tasks one by one while the worker may still wait at the old channel.
pub mod InOrder
pub mod Races
use content_storage_server.Prelude.{
  ℕ, ◌≡◌, Bool, true, false, Option, none, some, List, [], ◌∷◌, ◌++◌,
}
use content_storage_server.Prelude.Int64.{mul, sle}
use content_storage_server.Storage.Badger.{Badger, Codec}
use content_storage_server.Storage.Queue.{
  Queue, Chan, WriteTask, task_id, queued, store_pending_item,
}
use content_storage_server.Storage.Queue.Write.{has_room, push, try_enqueue, new_capacity}
use content_storage_server.Storage.Queue.Worker.{
  System, Event, timeout, resized, stop_seen, running, received, select_case, worker_step,
}

-- `storing`: the tasks that were sent and whose pending item is not stored yet. `old`: what is left in
-- the old channel while the channel grows, under its lock. `on_old`: whether the worker waits at an old
-- channel.
pub record Shared (D : Type 0) : Type 0 where
  pub system : System D
  pub storing : List WriteTask
  pub old : Option (List WriteTask)
  pub on_old : Bool

module _ {D : Type 0} where
  abbrev pub with_queue : Shared D → Queue D → Shared D
  with_queue s q = record s { system = record s.system { queue = q } }

  -- `send` of QueueWrite and QueueWriteSync, at the first or the second attempt.
  abbrev pub after_send : Shared D → WriteTask → Queue D → Shared D
  after_send s t q = record (with_queue s q) { storing = s.storing ++ t ∷ [] }

  abbrev pub after_store : Shared D → List WriteTask → WriteTask → List WriteTask → Shared D
  after_store s ts t us = record (with_queue s (store_pending_item s.system.queue (task_id t) t)) {
    storing = ts ++ us;
  }

  -- The new channel is in place, and the old one holds its tasks; `waits` is whether the worker had
  -- loaded the old one.
  abbrev pub after_swap : Shared D → Bool → Shared D
  after_swap s waits =
      let q = s.system.queue in
      let size = new_capacity q.max_queue_size (mul q.initial_queue_size q.max_multiplier) in
      record (with_queue s (record q {
        write_queue = some (record { buffered = []; capacity = size });
        max_queue_size = size;
      })) { old = some (queued q.write_queue); on_old = waits }

  abbrev pub after_move : Shared D → Chan → WriteTask → List WriteTask → Shared D
  after_move s c t ts =
      record (with_queue s (record s.system.queue { write_queue = some (push c t) })) {
        old = some ts;
      }

  abbrev pub after_grow : Shared D → Shared D
  after_grow s = record (with_queue s (record s.system.queue { resize_pending = true })) {
    old = none;
  }

module _ {D B : Type 0} (b : Badger D B) (j : Codec) where
  -- While the channel grows, writers and a worker that loads the channel wait for the lock.
  pub data Step : Shared D → Shared D → Type 0 where
    send :
        (s : Shared D) (t : WriteTask) (q : Queue D)
        → s.old ≡ none
        → try_enqueue s.system.queue t ≡ some q
        → Step s (after_send s t q)
    store :
        (s : Shared D) (ts : List WriteTask) (t : WriteTask) (us : List WriteTask)
        → s.storing ≡ ts ++ t ∷ us
        → Step s (after_store s ts t us)
    swap :
        (s : Shared D) (waits : Bool)
        → s.old ≡ none
        → s.system.queue.stopped ≡ false
        → sle
            (mul s.system.queue.initial_queue_size s.system.queue.max_multiplier)
            s.system.queue.max_queue_size
          ≡ false
        → Step s (after_swap s waits)
    move :
        (s : Shared D) (c : Chan) (t : WriteTask) (ts : List WriteTask)
        → s.old ≡ some (t ∷ ts)
        → s.system.queue.write_queue ≡ some c
        → has_room c ≡ true
        → Step s (after_move s c t ts)
    grown : (s : Shared D) → s.old ≡ some [] → Step s (after_grow s)
    work :
        (s : Shared D) (e : Event)
        → s.old ≡ none
        → s.on_old ≡ false
        → Step s (record s { system = worker_step b j s.system e })
    take_old :
        (s : Shared D) (t : WriteTask) (ts : List WriteTask)
        → s.on_old ≡ true
        → s.system.phase ≡ running
        → s.old ≡ some (t ∷ ts)
        → Step s (record s {
          system = received b j s.system s.system.queue t;
          old = some ts;
          on_old = false;
        })
    -- The other cases of the select, at an old channel.
    wake_timeout :
        (s : Shared D)
        → s.on_old ≡ true
        → s.system.phase ≡ running
        → Step s (record s { system = select_case b j s.system timeout; on_old = false })
    wake_resized :
        (s : Shared D)
        → s.on_old ≡ true
        → s.system.phase ≡ running
        → Step s (record s { system = select_case b j s.system resized; on_old = false })
    wake_stop :
        (s : Shared D)
        → s.on_old ≡ true
        → s.system.phase ≡ running
        → Step s (record s { system = select_case b j s.system stop_seen; on_old = false })

  -- The tasks that a step sends.
  abbrev pub sent_by : {s u : Shared D} → Step s u → List WriteTask
  sent_by (send s t q free room) = t ∷ []
  sent_by (store s ts t us e) = []
  sent_by (swap s waits free runs below) = []
  sent_by (move s c t ts e here room) = []
  sent_by (grown s e) = []
  sent_by (work s e free at_new) = []
  sent_by (take_old s t ts on r e) = []
  sent_by (wake_timeout s on r) = []
  sent_by (wake_resized s on r) = []
  sent_by (wake_stop s on r) = []

  -- A run of steps, with what it sends, in order.
  pub data Run (s : Shared D) : List WriteTask → Shared D → Type 0 where
    here : Run s [] s
    next :
        {ts : List WriteTask} {t u : Shared D}
        → Run s ts t
        → (st : Step t u) → Run s (ts ++ sent_by st) u
