-- ===== src/Storage/Queue/Flush/Forced.antt =====
-- What `forceProcessStuckTasks` of pkg/storage/queue.go writes: for each key the task that is still
-- pending, in whatever order the map is visited.
use content_storage_server.Prelude.{
  ℕ, zero, suc, ◌<◌, ◌≡◌, refl, sym, ap, ◌∙◌, Bool, true, false, Option, none, some, List, [], ◌∷◌,
  arith, Bytes, length, str_eq, str_eq_iff, if◌then◌else◌, take, drop, subst,
}
use content_storage_server.Prelude.Assoc
use content_storage_server.Prelude.Assoc.{Assoc, IsMap}
use content_storage_server.Storage.Badger.{Badger, Codec, Lookup, overlay, IsBadger}
use content_storage_server.Storage.CountedSyncMap
use content_storage_server.Storage.Queue.{Queue, Chan, WriteTask, task_id}
use content_storage_server.Storage.Queue.Batch.{encoded, names, process_batch}
use content_storage_server.Storage.Queue.Batch.Pending.{
  pending, IsQueueCounted, process_batch-IsCounted,
}
use content_storage_server.Storage.Queue.Batch.Durable.{View, apply_tasks, apply_task, IsReliable}
use content_storage_server.Storage.Queue.Worker.Eventual.{process_batch-queue}
use content_storage_server.Storage.Queue.Flush.{
  force_stuck, force_from, force_process_stuck_tasks, notify_forced,
}
use content_storage_server.Storage.Queue.Flush.Drain.{Wrote, force_from-Wrote}

-- The identifier of a pending task, if there is one.
abbrev pub id_or : Bytes → Option WriteTask → Bytes
id_or k none = k
id_or k (some t) = task_id t

-- Each task is pending under its own identifier.
abbrev pub IsKeyed : {D : Type 0} → Queue D → Type 0
IsKeyed q = (k : Bytes) → id_or k (pending q k) ≡ k

-- What key `k` shows after its pending task, if any, was written.
abbrev pub forced : Codec → View → Option WriteTask → Bytes → Lookup
forced j m none k = m k
forced j m (some t) k = overlay (encoded j t) (m k)

abbrev is_some : Option WriteTask → Bool
is_some none = false
is_some (some t) = true

module _ (i : Bytes) (t : WriteTask) (m : Assoc WriteTask) (map : IsMap ((i, t) ∷ m))
    (keyed : (k : Bytes) → id_or k (Assoc.get ((i, t) ∷ m) k) ≡ k) where
  pub head-keyed : task_id t ≡ i
  unfolding Assoc.get
  head-keyed = ground (arith, keyed i, str_eq_iff i i)

  pub tail-keyed : (k : Bytes) → id_or k (Assoc.get m k) ≡ k
  unfolding Assoc.get Assoc.has
  tail-keyed k = ground (arith, keyed k, map.0, str_eq_iff i k, ap (Assoc.get m) {x = i} {y = k})

pub same_item : (m : Assoc WriteTask) (i k : Bytes) → i ≡ k → Assoc.get m i ≡ Assoc.get m k
same_item m i k e = ap (Assoc.get m) e

module _ (j : Codec) where
  -- The tasks of a map, written one after the other, each under its own key.
  pub apply_tasks-values :
      (items : Assoc WriteTask) (m : View) (k : Bytes)
      → IsMap items
      → ((i : Bytes) → id_or i (Assoc.get items i) ≡ i)
      → apply_tasks j m (Assoc.values items) k ≡ forced j m (Assoc.get items k) k
  unfolding apply_tasks Assoc.get
  apply_tasks-values [] m k map keyed = refl
  apply_tasks-values ((i, t) ∷ items) m k map keyed =
      apply_tasks-values items (apply_task j m t) k map.1 (tail-keyed i t items map keyed) ∙ first
    where
      first :
          forced j (apply_task j m t) (Assoc.get items k) k
          ≡ forced j m (if str_eq i k then some t else Assoc.get items k) k
      first = ground (
        arith,
        head-keyed i t items map keyed,
        str_eq_iff i k,
        str_eq_iff (task_id t) k,
        same_item items i k,
        Assoc.get_absent items i map.0,
      )

  pub names-values :
      (items : Assoc WriteTask) (k : Bytes)
      → IsMap items
      → ((i : Bytes) → id_or i (Assoc.get items i) ≡ i)
      → names (Assoc.values items) k ≡ Assoc.has items k
  unfolding names Assoc.get Assoc.has
  names-values [] k map keyed = refl
  names-values ((i, t) ∷ items) k map keyed = ground (
    arith,
    names-values items k map.1 (tail-keyed i t items map keyed),
    head-keyed i t items map keyed,
    str_eq_iff i k,
  )

module _ {D B : Type 0} (b : Badger D B) (j : Codec) where
  module _ {P : Queue D → Type 0}
      (at_batch : (q : Queue D) (ts : List WriteTask) → P q → P (process_batch b j q ts)) where
    force_from-keeps :
        (fuel : ℕ) (ts : List WriteTask) (q q' : Queue D)
        → force_from b j fuel ts q ≡ some q'
        → P q
        → P q'
    unfolding force_from
    force_from-keeps zero ts q q' e h = absurd (cc e)
    force_from-keeps (suc fuel) [] q q' e h = subst P same h
      where
        same : q ≡ q'
        same = cc e
    force_from-keeps (suc fuel) (t ∷ ts) q q' e h =
        force_from-keeps fuel (drop q.max_batch_size (t ∷ ts))
          (process_batch b j q (take q.max_batch_size (t ∷ ts))) q' e (at_batch q _ h)

  -- What is promised of the forced processing of queue `q` with result `q'`.
  pub record Forced (q q' : Queue D) : Type 0 where
    pub shows : (k : Bytes) → b.read q'.db k ≡ forced j (b.read q.db) (pending q k) k
    pub gone : (k : Bytes) → pending q' k ≡ none
    pub counted : IsQueueCounted q'
    pub same_queue : q'.write_queue ≡ q.write_queue

  IsQueue : Option Chan → Queue D → Type 0
  IsQueue c q = q.write_queue ≡ c

  notify-Forced :
      (q q' : Queue D)
      → Wrote b j (Assoc.values q.pending_items.items) q q'
      → IsMap q.pending_items.items
      → IsKeyed q
      → IsQueueCounted q'
      → IsQueue q.write_queue q'
      → Forced q (notify_forced q')
  unfolding notify_forced CountedSyncMap.load IsQueue
  notify-Forced q q' w map keyed c same = record {
    shows = λ k.
        ap (λ (m : View). m k) w.shows
        ∙ apply_tasks-values j q.pending_items.items (b.read q.db) k map keyed;
    gone = λ k.
        w.pends k
        ∙ ground (
          arith,
          names-values j q.pending_items.items k map keyed,
          Assoc.get_absent q.pending_items.items k,
        );
    counted = c;
    same_queue = same;
  }

  after_loop :
      (q q' : Queue D) (t : WriteTask) (ts : List WriteTask)
      → force_from b j (suc (length (t ∷ ts))) (t ∷ ts) q ≡ some q'
      → force_stuck b j (t ∷ ts) q ≡ some (notify_forced q')
  unfolding force_stuck
  after_loop q q' t ts e = rw (e, force_stuck) refl

  -- On a database that takes every write, with a positive batch size, the forced processing returns;
  -- every key that was pending then shows its pending task, every other key what it showed before,
  -- nothing is pending any more, and the channel is as it was.
  pub force_process-Forced :
      IsBadger b
      → IsReliable b
      → (q : Queue D) → 0 < q.max_batch_size
      → IsQueueCounted q
      → IsKeyed q
      → (q' : Queue D) × (force_process_stuck_tasks b j q ≡ some q') × Forced q q'
  unfolding force_process_stuck_tasks CountedSyncMap.load CountedSyncMap.range force_stuck IsQueue
  force_process-Forced L r q p c keyed = by_items (Assoc.values q.pending_items.items) refl
    where
      by_items :
          (ts : List WriteTask)
          → Assoc.values q.pending_items.items ≡ ts
          → (q' : Queue D) × (force_stuck b j ts q ≡ some q') × Forced q q'
      by_items [] e = (
        q,
        refl,
        record {
          shows = λ k. sym (ap (λ o. forced j (b.read q.db) o k) (nothing k));
          gone = nothing;
          counted = c;
          same_queue = refl;
        },
      )
        where
          nothing : (k : Bytes) → pending q k ≡ none
          nothing k = Assoc.get_absent q.pending_items.items k (
              sym (names-values j q.pending_items.items k c.is_map keyed) ∙ ap (λ ts. names ts k) e)
      by_items (t ∷ ts) e =
          let (q', done, wrote) =
            force_from-Wrote b j L r (suc (length (t ∷ ts))) (t ∷ ts) q (omega arith) p in
          (
            notify_forced q',
            after_loop q q' t ts done,
            notify-Forced q q' (subst (λ us. Wrote b j us q q') (sym e) wrote) c.is_map keyed
                (force_from-keeps {P = IsQueueCounted}
                  (λ x us h. process_batch-IsCounted b j x us h) (suc (length (t ∷ ts))) (t ∷ ts) q
                  q' done c)
                (force_from-keeps {P = IsQueue q.write_queue}
                  (λ x us h. process_batch-queue b j x us ∙ h) (suc (length (t ∷ ts))) (t ∷ ts) q q'
                  done refl),
          )
