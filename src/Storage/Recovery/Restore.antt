-- ===== src/Storage/Recovery/Restore.antt =====
-- The two loops of pkg/storage/recovery.go over the tasks of a file.
use content_storage_server.Prelude.{
  ℕ, suc, ◌+◌, ◌≤◌, ◌≡◌, refl, sym, ap, ◌∙◌, Option, none, some, List, [], ◌∷◌, ◌++◌, append-nil,
  append_assoc, arith, Bytes, str_eq_iff, length, length-append, if◌then◌else◌, if_induction,
}
use content_storage_server.Prelude.Assoc
use content_storage_server.Prelude.Assoc.{Assoc, IsMap}
use content_storage_server.Storage.CountedSyncMap
use content_storage_server.Storage.CountedSyncMap.{IsCounted}
use content_storage_server.Storage.CountedSyncMap.{load-store}
use content_storage_server.Storage.Queue.{Queue, Chan, WriteTask, task_id, queued}
use content_storage_server.Storage.Queue.Batch.Pending.{pending}
use content_storage_server.Storage.Queue.Write.{try_enqueue, has_room, push}
use content_storage_server.Storage.Queue.Flush.{SerializableTask, serializable}
use content_storage_server.Storage.Queue.Flush.Forced.{id_or, head-keyed, tail-keyed, same_item}
use content_storage_server.Storage.Recovery.{
  RestoredTask, restore_pending, restore_queue, sent_or_skipped,
}

-- A task without its channel.
abbrev pub saved : WriteTask → SerializableTask
saved t = record { content = t.content; marshaled_data = t.marshaled_data }

abbrev pub saved_at : Option WriteTask → Option SerializableTask
saved_at none = none
saved_at (some t) = some (saved t)

-- What encoding/json gives back of saved tasks.
abbrev pub parsed : List SerializableTask → List RestoredTask
parsed [] = []
parsed (t ∷ ts) = record { content = some t.content; marshaled_data = t.marshaled_data } ∷ parsed ts

-- The task if there is one, and otherwise what was there.
abbrev pub over : Option WriteTask → Option SerializableTask → Option SerializableTask
over none o = o
over (some t) o = some (saved t)

-- A task with a new channel.
abbrev pub renewed : ℕ → WriteTask → WriteTask
renewed n t = record t { result_chan = some n }

serializable-append :
    (ts us : List WriteTask) → serializable (ts ++ us) ≡ serializable ts ++ serializable us
unfolding serializable
serializable-append [] us = refl
serializable-append (t ∷ ts) us = ap (λ r. saved t ∷ r) (serializable-append ts us)

abbrev task_of : ℕ → SerializableTask → WriteTask
task_of n t = record {
  content = t.content;
  marshaled_data = t.marshaled_data;
  result_chan = some n;
}

module _ {D : Type 0} where
  -- What is left of a send has the pending items of `q`.
  abbrev IsSame : Queue D → Option (Queue D) → Type 0
  IsSame q o = (sent_or_skipped q o).pending_items ≡ q.pending_items

  -- What is pending at `k`, but for the channel.
  abbrev pub pending_saved : Queue D → Bytes → Option SerializableTask
  pending_saved q k = saved_at (pending q k)

  -- The tasks of a map, restored: its keys have its tasks, all others what they had.
  pub restore_pending_lem :
      (items : Assoc WriteTask) (n : ℕ) (q : Queue D) (k : Bytes)
      → IsMap items
      → ((i : Bytes) → id_or i (Assoc.get items i) ≡ i)
      → pending_saved (restore_pending n (parsed (serializable (Assoc.values items))) q) k
        ≡ over (Assoc.get items k) (pending_saved q k)
  unfolding restore_pending serializable Assoc.get CountedSyncMap.load
  restore_pending_lem [] n q k is_map keyed = refl
  restore_pending_lem ((i, t) ∷ items) n q k is_map keyed =
      restore_pending_lem items (suc n) _ k is_map.1 (tail-keyed i t items is_map keyed)
      ∙ ground (
        arith,
        load-store q.pending_items (task_id t) k (renewed n t),
        head-keyed i t items is_map keyed,
        str_eq_iff i k,
        str_eq_iff (task_id t) k,
        same_item items i k,
        Assoc.get_absent items i is_map.0,
      )

  -- Tasks that fit into the channel, restored: they are queued behind the others.
  pub restore_queue_lem :
      (ts : List WriteTask) (n : ℕ) (q : Queue D) (c : Chan)
      → q.write_queue ≡ some c
      → length c.buffered + length ts ≤ c.capacity
      → serializable (queued (restore_queue n (parsed (serializable ts)) q).write_queue)
        ≡ serializable c.buffered ++ serializable ts
  unfolding restore_queue serializable try_enqueue
  restore_queue_lem [] n q c e h =
      ap (λ o. serializable (queued o)) e ∙ sym (append-nil (serializable c.buffered))
  restore_queue_lem (t ∷ ts) n q c e h =
      let task = renewed n t in
      let c' = push c task in
      let sent : try_enqueue q task ≡ some (record q { write_queue = some c' }) =
        rw (e, try_enqueue) (ground (arith, h)) in
      ap
        (λ o. serializable (
          queued
            (restore_queue (suc n) (parsed (serializable ts)) (sent_or_skipped q o)).write_queue))
        sent
      ∙ restore_queue_lem ts (suc n) (record q { write_queue = some c' }) c' refl
          (omega (arith, h, length-append c.buffered (task ∷ [])))
      ∙ ap (λ r. r ++ serializable ts) (serializable-append c.buffered (task ∷ []))
      ∙ append_assoc (serializable c.buffered) (saved t ∷ []) (serializable ts)

  pub restore_pending-queue :
      (ts : List SerializableTask) (n : ℕ) (q : Queue D)
      → (restore_pending n (parsed ts) q).write_queue ≡ q.write_queue
  unfolding restore_pending
  restore_pending-queue [] n q = refl
  restore_pending-queue (t ∷ ts) n q = restore_pending-queue ts (suc n) _

  pub sent-pending :
      (q : Queue D) (t : WriteTask)
      → (sent_or_skipped q (try_enqueue q t)).pending_items ≡ q.pending_items
  unfolding try_enqueue
  sent-pending q t = by_channel q.write_queue
    where
      by_channel :
          (o : Option Chan)
          → IsSame q (elim o [
            | none ↦ none
            | some c ↦
                if has_room c then some (record q { write_queue = some (push c t) }) else none
          ])
      by_channel none = refl
      by_channel (some c) = if_induction (IsSame q) (has_room c) refl refl

  pub restore_queue-pending :
      (ts : List SerializableTask) (n : ℕ) (q : Queue D)
      → (restore_queue n (parsed ts) q).pending_items ≡ q.pending_items
  unfolding restore_queue
  restore_queue-pending [] n q = refl
  restore_queue-pending (t ∷ ts) n q =
      restore_queue-pending ts (suc n) (sent_or_skipped q (try_enqueue q (task_of n t)))
      ∙ sent-pending q (task_of n t)
