-- ===== src/Storage/Queue/Batch/Answers.antt =====
-- Every synchronous writer of a batch is answered (pkg/storage/queue.go): its result channel holds a
-- message when the batch is over, and the first message that was sent to it stays.
use content_storage_server.Prelude.{
  ℕ, ◌≡◌, refl, Bool, true, false, ◌||◌, Option, none, some, List, [], ◌∷◌, arith, Bytes, ◌==◌,
  Option-cases, inl, inr,
}
use content_storage_server.Prelude.Slots.{Slots, try_send}
use content_storage_server.Storage.Badger.{Badger, Codec}
use content_storage_server.Storage.Error.{
  DbError, Error, flush_batch, add_to_batch, marshal_content,
}
use content_storage_server.Storage.Queue.{Queue, WriteTask, task_id}
use content_storage_server.Storage.Queue.Batch.{
  answer, answer_all, unique_ids, handle_task_error, fail_all, complete_id, complete_ids, complete,
  after_set, after_flush, add_task, add_tasks, process_batch, encoded,
}

abbrev is_chan : Option ℕ → ℕ → Bool
is_chan none c = false
is_chan (some d) c = d == c

-- Some task of the list waits on channel `c`.
abbrev pub asks : List WriteTask → ℕ → Bool
asks [] c = false
asks (t ∷ ts) c = is_chan t.result_chan c || asks ts c

abbrev pub has_message : Option (Option Error) → Bool
has_message none = false
has_message (some r) = true

-- `s` holds what `r` holds, wherever `r` holds something.
abbrev pub Keeps : Slots (Option Error) → Slots (Option Error) → Type 0
Keeps r s = (c : ℕ) (m : Option Error) → r c ≡ some m → s c ≡ some m

answer-Keeps :
    (s : Slots (Option Error)) (t : WriteTask) (r : Option Error) → Keeps s (answer s t r)
unfolding answer try_send
answer-Keeps s t r c m h = ground arith

answer-answers :
    (s : Slots (Option Error)) (t : WriteTask) (r : Option Error) (c : ℕ)
    → is_chan t.result_chan c ≡ true
    → has_message (answer s t r c) ≡ true
unfolding answer try_send
answer-answers s t r c h = ground arith

message :
    (s u : Slots (Option Error)) (c : ℕ)
    → Keeps s u
    → has_message (s c) ≡ true
    → has_message (u c) ≡ true
message s u c keeps h = elim (Option-cases (s c)) [ inl e ↦ cc e | inr (m, e) ↦ rw (keeps c m e) ]

answer_all-Keeps : (ts : List WriteTask) (s : Slots (Option Error)) → Keeps s (answer_all s ts)
unfolding answer_all
answer_all-Keeps [] s c m h = h
answer_all-Keeps (t ∷ ts) s c m h =
    answer_all-Keeps ts (answer s t none) c m (answer-Keeps s t none c m h)

answer_all-answers :
    (ts : List WriteTask) (s : Slots (Option Error)) (c : ℕ)
    → asks ts c ≡ true
    → has_message (answer_all s ts c) ≡ true
unfolding answer_all
answer_all-answers [] s c h = cc
answer_all-answers (t ∷ ts) s c h = ground (
  arith,
  answer_all-answers ts (answer s t none) c,
  message (answer s t none) (answer_all (answer s t none) ts) c
      (answer_all-Keeps ts (answer s t none)),
  answer-answers s t none c,
)

module _ {D : Type 0} where
  complete_ids-results : (is : List Bytes) (q : Queue D) → (complete_ids q is).results ≡ q.results
  unfolding complete_ids
  complete_ids-results [] q = refl
  complete_ids-results (i ∷ is) q = complete_ids-results is (complete_id q i)

  handle_task_error-results :
      (q : Queue D) (t : WriteTask) (e : Error)
      → (handle_task_error q t e).results ≡ answer q.results t (some e)
  unfolding handle_task_error
  handle_task_error-results q t e = refl

  fail_all-Keeps : (ts : List WriteTask) (q : Queue D) → Keeps q.results (fail_all q ts).results
  unfolding fail_all
  fail_all-Keeps [] q c m h = h
  fail_all-Keeps (t ∷ ts) q c m h = fail_all-Keeps ts (handle_task_error q t flush_batch) c m (
      rw (handle_task_error-results q t flush_batch)
        (answer-Keeps q.results t (some flush_batch) c m h))

  fail_all-answers :
      (ts : List WriteTask) (q : Queue D) (c : ℕ)
      → asks ts c ≡ true
      → has_message ((fail_all q ts).results c) ≡ true
  unfolding fail_all handle_task_error
  fail_all-answers [] q c h = cc
  fail_all-answers (t ∷ ts) q c h =
      let q' = handle_task_error q t flush_batch in
      ground (
        arith,
        fail_all-answers ts q' c,
        message q'.results (fail_all q' ts).results c (fail_all-Keeps ts q'),
        answer-answers q.results t (some flush_batch) c,
      )

  after_flush-answers :
      (ts : List WriteTask) (q : Queue D) (r : D × Option DbError) (c : ℕ)
      → asks ts c ≡ true
      → has_message ((after_flush q ts r).results c) ≡ true
  unfolding after_flush complete
  after_flush-answers ts q (d, none) c h =
      rw
        (complete_ids-results (unique_ids ts)
          (record q { db = d; results = answer_all q.results ts }))
        (answer_all-answers ts q.results c h)
  after_flush-answers ts q (d, some e) c h = fail_all-answers ts (record q { db = d }) c h

  after_flush-Keeps :
      (ts : List WriteTask) (q : Queue D) (r : D × Option DbError)
      → Keeps q.results (after_flush q ts r).results
  unfolding after_flush complete
  after_flush-Keeps ts q (d, none) c m h =
      rw
        (complete_ids-results (unique_ids ts)
          (record q { db = d; results = answer_all q.results ts }))
        (answer_all-Keeps ts q.results c m h)
  after_flush-Keeps ts q (d, some e) c m h = fail_all-Keeps ts (record q { db = d }) c m h

  after_set-Keeps :
      {B : Type 0} (q : Queue D) (t : WriteTask) (r : B × Option DbError)
      → Keeps q.results (after_set q t r).0.results
  unfolding after_set handle_task_error
  after_set-Keeps q t (w, none) c m h = h
  after_set-Keeps q t (w, some e) c m h = answer-Keeps q.results t (some add_to_batch) c m h

module _ {D B : Type 0} (b : Badger D B) (j : Codec) where
  add_task-Keeps :
      (q : Queue D) (w : B) (t : WriteTask) → Keeps q.results (add_task b j q w t).0.results
  unfolding add_task handle_task_error
  add_task-Keeps q w t c m h = elim (Option-cases (encoded j t)) [
    | inl e ↦ rw (e, add_task) (answer-Keeps q.results t (some marshal_content) c m h)
    | inr (v, e) ↦ rw (e, add_task) (after_set-Keeps q t (b.set w (task_id t) v) c m h)
  ]

  add_tasks-Keeps :
      (ts : List WriteTask) (q : Queue D) (w : B) → Keeps q.results (add_tasks b j q w ts).0.results
  unfolding add_tasks
  add_tasks-Keeps [] q w c m h = h
  add_tasks-Keeps (t ∷ ts) q w c m h =
      let (q', w') = add_task b j q w t in add_tasks-Keeps ts q' w' c m (add_task-Keeps q w t c m h)

  -- When a batch is over, however it ends, the result channel of each of its tasks holds a message:
  -- every synchronous writer of the batch is answered.
  pub process_batch-answers :
      (q : Queue D) (ts : List WriteTask) (c : ℕ)
      → asks ts c ≡ true
      → has_message ((process_batch b j q ts).results c) ≡ true
  unfolding process_batch
  process_batch-answers q [] c h = cc
  process_batch-answers q (t ∷ ts) c h =
      let all : List WriteTask = t ∷ ts in
      let (q', w) = add_tasks b j q (b.new_write_batch q.db) all in
      after_flush-answers all q' (b.flush q'.db w) c h

  -- A message that waits in a result channel when a batch begins is still the one that waits there
  -- when the batch is over.
  pub process_batch-keeps :
      (q : Queue D) (ts : List WriteTask) (c : ℕ) (m : Option Error)
      → q.results c ≡ some m
      → (process_batch b j q ts).results c ≡ some m
  unfolding process_batch
  process_batch-keeps q [] c m h = h
  process_batch-keeps q (t ∷ ts) c m h =
      let all : List WriteTask = t ∷ ts in
      let (q', w) = add_tasks b j q (b.new_write_batch q.db) all in
      after_flush-Keeps all q' (b.flush q'.db w) c m
        (add_tasks-Keeps all q (b.new_write_batch q.db) c m h)
