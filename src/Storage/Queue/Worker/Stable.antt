-- ===== src/Storage/Queue/Worker/Stable.antt =====
-- What the worker of pkg/storage/queue.go keeps because a batch keeps it.
use content_storage_server.Prelude.{
  ◌≡◌, ap, ◌∙◌, true, false, Option, none, some, List, [], ◌∷◌, ◌++◌, length, if_induction,
}
use content_storage_server.Prelude.Int64.{Int64, sle}
use content_storage_server.Storage.Badger.{Badger, Codec}
use content_storage_server.Storage.Queue.{Queue, Chan, WriteTask}
use content_storage_server.Storage.Queue.Batch.{process_batch}
use content_storage_server.Storage.Queue.Batch.Frame.{Frame, process_batch-frame}
use content_storage_server.Storage.Queue.Batch.Pending.{IsQueueCounted, process_batch-IsCounted}
use content_storage_server.Storage.Queue.Worker.{
  Phase, running, stopping, exited, System, Event, receive, timeout, resized, stop_seen, finish,
  with_rest, received, receive_from, receive_case, select_case, stop_case, step_in, worker_step,
  run_worker,
}

module _ {D B : Type 0} (b : Badger D B) (j : Codec) where
  -- A property of queues that batches keep, and that the channel and its signal do not matter to.
  pub record Stable (P : Queue D → Type 0) : Type 0 where
    pub at_batch : (q : Queue D) (ts : List WriteTask) → P q → P (process_batch b j q ts)
    pub at_channel : (q : Queue D) (o : Option Chan) → P q → P (record q { write_queue = o })
    pub at_signal : (q : Queue D) → P q → P (record q { resize_pending = false })

  pub counted_Stable : Stable IsQueueCounted
  counted_Stable = record {
    at_batch = λ q ts h. process_batch-IsCounted b j q ts h;
    at_channel = λ q o h. h;
    at_signal = λ q h. h;
  }

  pub stopped_Stable : Stable (λ q. q.stopped ≡ true)
  stopped_Stable = record {
    at_batch = λ q ts h. ap (λ (f : Frame). f.stopped) (process_batch-frame b j q ts) ∙ h;
    at_channel = λ q o h. h;
    at_signal = λ q h. h;
  }

  pub size_Stable : (n : Int64) → Stable (λ q. q.max_batch_size ≡ n)
  size_Stable n = record {
    at_batch = λ q ts h. ap (λ (f : Frame). f.max_batch_size) (process_batch-frame b j q ts) ∙ h;
    at_channel = λ q o h. h;
    at_signal = λ q h. h;
  }

  module _ {P : Queue D → Type 0} (st : Stable P) where
    abbrev Holds : System D → Type 0
    Holds s = P s.queue

    received-Stable :
        (s : System D) (q : Queue D) (t : WriteTask) → P q → Holds (received b j s q t)
    unfolding received
    received-Stable s q t h =
        let batch' = s.batch ++ t ∷ [] in
        if_induction Holds (sle q.max_batch_size (length batch')) (st.at_batch q batch' h) h

    receive_from-Stable :
        (s : System D) (c : Chan) (ts : List WriteTask) → Holds s → Holds (receive_from b j s c ts)
    unfolding receive_from
    receive_from-Stable s c [] h = h
    receive_from-Stable s c (t ∷ ts) h =
        received-Stable s (with_rest s.queue c ts) t (st.at_channel s.queue _ h)

    receive-Stable : (s : System D) (o : Option Chan) → Holds s → Holds (receive_case b j s o)
    unfolding receive_case
    receive-Stable s none h = h
    receive-Stable s (some c) h = receive_from-Stable s c c.buffered h

    step_in-Stable : (p : Phase) (s : System D) (e : Event) → Holds s → Holds (step_in b j p s e)
    unfolding step_in select_case stop_case
    step_in-Stable running s receive h = receive-Stable s s.queue.write_queue h
    step_in-Stable running s timeout h =
        if_induction Holds s.timer (st.at_batch s.queue s.batch h) h
    step_in-Stable running s resized h = st.at_signal s.queue h
    step_in-Stable running s stop_seen h = if_induction Holds s.queue.stopped h h
    step_in-Stable running s finish h = h
    step_in-Stable stopping s finish h = st.at_batch s.queue s.batch h
    step_in-Stable stopping s receive h = h
    step_in-Stable stopping s timeout h = h
    step_in-Stable stopping s resized h = h
    step_in-Stable stopping s stop_seen h = h
    step_in-Stable exited s e h = h

    pub run_worker-Stable : (s : System D) (es : List Event) → Holds s → Holds (run_worker b j s es)
    unfolding run_worker worker_step
    run_worker-Stable s [] h = h
    run_worker-Stable s (e ∷ es) h =
        run_worker-Stable (worker_step b j s e) es (step_in-Stable s.phase s e h)
