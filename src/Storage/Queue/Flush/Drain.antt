-- ===== src/Storage/Queue/Flush/Drain.antt =====
-- What the two loops of a graceful shutdown write (pkg/storage/queue.go): the drain writes what is
-- queued, in order, and the forced loop ends and writes what it is given.
use content_storage_server.Prelude.{
  subst, ℕ, zero, suc, ◌<◌, ◌≡◌, refl, sym, ap, ◌∙◌, Option, none, some, List, [], ◌∷◌, ◌++◌,
  append_assoc, append-nil, arith, Bytes, length, length-drop, take, drop, take-append-drop,
  if◌then◌else◌, if_induction,
}
use content_storage_server.Prelude.Int64.{sle}
use content_storage_server.Storage.Badger.{Badger, Codec, IsBadger}
use content_storage_server.Storage.Queue.{Queue, Chan, WriteTask, queued}
use content_storage_server.Storage.Queue.Batch.{process_batch, names}
use content_storage_server.Storage.Queue.Batch.Durable.{
  apply_tasks, apply_tasks-nil, apply_tasks-append, IsReliable, process_batch-apply,
}
use content_storage_server.Storage.Queue.Batch.Frame.{Frame, process_batch-frame}
use content_storage_server.Storage.Queue.Batch.Pending.{pending, process_batch-pending}
use content_storage_server.Storage.Queue.Worker.Eventual.{names-append, process_batch-queue}
use content_storage_server.Storage.Queue.Worker.Stable.{Stable}
use content_storage_server.Storage.Queue.Flush.{
  with_queued, drain_from, drain_queued_tasks, force_from,
}

module _ {D B : Type 0} (b : Badger D B) (j : Codec) where
  -- `q'` is `q` after the tasks `ts` were written and nothing else was.
  pub record Wrote (ts : List WriteTask) (q q' : Queue D) : Type 0 where
    pub shows : b.read q'.db ≡ apply_tasks j (b.read q.db) ts
    pub pends : (k : Bytes) → pending q' k ≡ (if names ts k then none else pending q k)

  Wrote-nil : (q : Queue D) → Wrote [] q q
  unfolding names
  Wrote-nil q = record { shows = sym (apply_tasks-nil j (b.read q.db)); pends = λ k. refl }

  Wrote-append :
      (ts us : List WriteTask) (q r s : Queue D)
      → Wrote ts q r
      → Wrote us r s
      → Wrote (ts ++ us) q s
  Wrote-append ts us q r s v w = record {
    shows =
        w.shows
        ∙ ap (λ m. apply_tasks j m us) v.shows
        ∙ sym (apply_tasks-append j (b.read q.db) ts us);
    pends = λ k. ground (arith, v.pends k, w.pends k, names-append ts us k);
  }

  module _ (L : IsBadger b) (r : IsReliable b) where
    pub process_batch-Wrote :
        (q : Queue D) (ts : List WriteTask) → Wrote ts q (process_batch b j q ts)
    process_batch-Wrote q ts = record {
      shows = process_batch-apply b j L r q ts;
      pends = process_batch-pending b j q ts;
    }

    drain_from-Wrote :
        (ts batch : List WriteTask) (q : Queue D)
        → Wrote (batch ++ ts) q (drain_from b j ts batch q)
    unfolding drain_from
    drain_from-Wrote [] batch q = rw (append-nil batch) (process_batch-Wrote q batch)
    drain_from-Wrote (t ∷ ts) batch q =
        let batch' = batch ++ t ∷ [] in
        let q' = with_queued q ts in
        let q'' = process_batch b j q' batch' in
        if_induction (λ x. Wrote (batch ++ t ∷ ts) q x) (sle q.max_batch_size (length batch'))
          (rw (← append_assoc batch (t ∷ []) ts) (
            renamed (
              Wrote-append batch' ts q' q'' (drain_from b j ts [] q'')
                (process_batch-Wrote q' batch') (drain_from-Wrote ts [] q''))))
          (rw (← append_assoc batch (t ∷ []) ts) (renamed (drain_from-Wrote ts batch' q')))
      where
        renamed : {us : List WriteTask} {x : Queue D} → Wrote us (with_queued q ts) x → Wrote us q x
        renamed w = record { shows = w.shows; pends = w.pends }

    -- On a database that takes every write, the drain writes the queued tasks in their order, and
    -- no other.
    pub drain_queued_tasks-Wrote :
        (q : Queue D) → Wrote (queued q.write_queue) q (drain_queued_tasks b j q).0
    unfolding drain_queued_tasks
    drain_queued_tasks-Wrote q = drain_from-Wrote (queued q.write_queue) [] q

    -- On a database that takes every write, with a positive batch size and more fuel than there
    -- are tasks, the forced loop ends, and it writes the tasks that it is given in their order,
    -- and no other.
    pub force_from-Wrote :
        (fuel : ℕ) (ts : List WriteTask) (q : Queue D)
        → length ts < fuel
        → 0 < q.max_batch_size
        → (q' : Queue D) × (force_from b j fuel ts q ≡ some q') × Wrote ts q q'
    unfolding force_from
    force_from-Wrote zero ts q h p = absurd (omega arith)
    force_from-Wrote (suc fuel) [] q h p = (q, refl, Wrote-nil q)
    force_from-Wrote (suc fuel) (t ∷ ts) q h p =
        let n = q.max_batch_size in
        let first = take n (t ∷ ts) in
        let rest = drop n (t ∷ ts) in
        let q1 = process_batch b j q first in
        let (q2, done, wrote) =
          force_from-Wrote fuel rest q1 (omega (arith, length-drop n (t ∷ ts))) (
            omega
              (arith, ap (λ (f : Frame). f.max_batch_size) (process_batch-frame b j q first))) in
        (
          q2,
          done,
          subst (λ us. Wrote us q q2) (take-append-drop n (t ∷ ts))
              (Wrote-append first rest q q1 q2 (process_batch-Wrote q first) wrote),
        )

  queued-with :
      (q : Queue D) (o : Option Chan) (t : WriteTask) (ts : List WriteTask)
      → q.write_queue ≡ o
      → queued o ≡ t ∷ ts
      → queued (with_queued q ts).write_queue ≡ ts
  queued-with q none t ts e h = cc
  queued-with q (some c) t ts e h = rw e

  drain_from-empties :
      (ts batch : List WriteTask) (q : Queue D)
      → queued q.write_queue ≡ ts
      → queued (drain_from b j ts batch q).write_queue ≡ []
  unfolding drain_from
  drain_from-empties [] batch q h = ap queued (process_batch-queue b j q batch) ∙ h
  drain_from-empties (t ∷ ts) batch q h =
      let batch' = batch ++ t ∷ [] in
      let q' = with_queued q ts in
      let q'' = process_batch b j q' batch' in
      let kept : queued q'.write_queue ≡ ts = queued-with q q.write_queue t ts refl h in
      if_induction (λ (x : Queue D). queued x.write_queue ≡ [])
        (sle q.max_batch_size (length batch'))
        (drain_from-empties ts [] q'' (ap queued (process_batch-queue b j q' batch') ∙ kept))
        (drain_from-empties ts batch' q' kept)

  pub drain_queued_tasks-empties :
      (q : Queue D) → queued (drain_queued_tasks b j q).0.write_queue ≡ []
  unfolding drain_queued_tasks
  drain_queued_tasks-empties q = drain_from-empties (queued q.write_queue) [] q refl

  module _ {P : Queue D → Type 0} (st : Stable b j P) where
    drain_from-Stable :
        (ts batch : List WriteTask) (q : Queue D) → P q → P (drain_from b j ts batch q)
    unfolding drain_from
    drain_from-Stable [] batch q h = st.at_batch q batch h
    drain_from-Stable (t ∷ ts) batch q h =
        let batch' = batch ++ t ∷ [] in
        let q' = with_queued q ts in
        let h' = st.at_channel q q'.write_queue h in
        if_induction P (sle q.max_batch_size (length batch'))
          (drain_from-Stable ts [] (process_batch b j q' batch') (st.at_batch q' batch' h'))
          (drain_from-Stable ts batch' q' h')

    pub drain_queued_tasks-Stable : (q : Queue D) → P q → P (drain_queued_tasks b j q).0
    unfolding drain_queued_tasks
    drain_queued_tasks-Stable q h = drain_from-Stable (queued q.write_queue) [] q h
