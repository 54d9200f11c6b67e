-- ===== src/Handlers/Content/Stores.antt =====
-- `StoreContent` and `GetContent` of internal/handlers/content.go together, over the write queue and its
-- worker: what a client was told to be queued is what a client reads.
use content_storage_server.Prelude.{
  ◌≡◌, ◌≢◌, refl, sym, ap, subst, ◌∙◌, inl, inr, true, false, Option, none, some, arith, Bytes,
  bytes, if◌then◌else◌, Option-cases, str_eq_refl,
}
use content_storage_server.Prelude.Int64.{add}
use content_storage_server.Models.Content.{
  Content, ContentWithAccess, StorageRequest, is_expired, is_access_exhausted,
}
use content_storage_server.Storage.Badger.{Badger, Codec, IsBadger}
use content_storage_server.Storage.Error.{Error, Result, ok}
use content_storage_server.Storage.Error.Message.{Texts}
use content_storage_server.Storage.Access.{
  get_access_count, increment_access, create_content_with_access,
}
use content_storage_server.Storage.Access.Laws.{increment_access_lem}
use content_storage_server.Storage.Queue.{Queue, WriteTask, task_id, queued, is_content_in_queue}
use content_storage_server.Storage.Queue.Batch.{names}
use content_storage_server.Storage.Queue.Batch.Durable.{IsReliable}
use content_storage_server.Storage.Queue.Batch.Pending.{pending}
use content_storage_server.Storage.Queue.Write.Capacity.{IsSized}
use content_storage_server.Storage.Queue.Write.Accept.{Took, async_task}
use content_storage_server.Storage.Queue.Worker.{System, running, run_worker}
use content_storage_server.Storage.Queue.Worker.Eventual.{uncovered}
use content_storage_server.Storage.Queue.Worker.Cover.{run_worker-uncovered, Took-uncovered}
use content_storage_server.Storage.Queue.Worker.Bounds.{IsWorking}
use content_storage_server.Storage.Queue.Worker.Progress.{receive_all, run_worker-completes}
use content_storage_server.Storage.Crud.{BadgerStorage, with_system, with_queue, store, retrieve}
use content_storage_server.Storage.Crud.Reads.{read_after_write}
use content_storage_server.Storage.Crud.Gets.{store-Took, get-counts}
use content_storage_server.Storage.Api.{Storage, Moment, badger_storage}
use content_storage_server.Handlers.Http.{Response, retrieved}
use content_storage_server.Handlers.Errors.{Sanitizer}
use content_storage_server.Handlers.Validation.{validate_id}
use content_storage_server.Handlers.Content.{
  bound, Validator, content_of_request, check_request, store_response, store_valid, store_content,
  answer, get_response, get_content,
}

check_refuses :
    (v : Validator) (r : StorageRequest) (resp : Response)
    → check_request v r ≡ some resp
    → resp.status ≢ 202
unfolding check_request
check_refuses v r resp h e = ground (arith, h, e)

check_valid :
    (v : Validator) (r : StorageRequest)
    → check_request v r ≡ none
    → (validate_id v.limits.limits r.id ≡ none)
unfolding check_request
check_valid v r h = ground (arith, h)

stored_202 : (id : Bytes) (e : Option Error) → (store_response id e).status ≡ 202 → e ≡ none
unfolding store_response
stored_202 id none h = refl
stored_202 id (some e) h = absurd (omega (arith, h))

module _ {D B : Type 0} (b : Badger D B) (j : Codec) (v : Validator) where
  abbrev st : Storage (BadgerStorage D) Moment
  st = badger_storage b j

  -- `store_valid` once the storage has answered.
  abbrev store_outcome :
      Bytes → Option (BadgerStorage D × Option Error) → Option (BadgerStorage D × Response)
  store_outcome id o = elim o [ none ↦ none | some (s', e) ↦ some (s', store_response id e) ]

  -- `store_content` once the request is checked.
  abbrev checked_outcome :
      BadgerStorage D → StorageRequest → Option Response → Option (BadgerStorage D × Response)
  checked_outcome s r o = elim o [ some x ↦ some (s, x) | none ↦ store_valid st v s r ]

  valid-queued :
      (s s' : BadgerStorage D) (r : StorageRequest) (resp : Response)
      (o : Option (BadgerStorage D × Option Error))
      → store b j s (content_of_request r v.now) ≡ o
      → store_valid st v s r ≡ some (s', resp)
      → resp.status ≡ 202
      → o ≡ some (s', none)
  unfolding store_valid badger_storage
  valid-queued s s' r resp none e h q = absurd (cc (ap (λ x. store_outcome r.id x) e, h))
  valid-queued s s' r resp (some (s1, x)) e h q =
      let same : store_outcome r.id (some (s1, x)) ≡ some (s', resp) =
        sym (ap (λ y. store_outcome r.id y) e) ∙ h in
      cc (same, stored_202 r.id x (cc (same, q)))

  -- A request that is answered 202 is valid, and the storage took its content.
  pub store_content-queued :
      (s s' : BadgerStorage D) (r : StorageRequest) (resp : Response)
      → store_content st v s (bound r) ≡ some (s', resp)
      → resp.status ≡ 202
      → (validate_id v.limits.limits r.id ≡ none)
        × (store b j s (content_of_request r v.now) ≡ some (s', none))
  unfolding store_content
  store_content-queued s s' r resp h q = elim (Option-cases (check_request v r)) [
    | inl e ↦ (
      check_valid v r e,
      valid-queued s s' r resp _ refl (sym (ap (λ o. checked_outcome s r o) e) ∙ h) q,
    )
    | inr (x, e) ↦
        absurd (check_refuses v r x e (cc (sym (ap (λ o. checked_outcome s r o) e) ∙ h, q)))
  ]

  -- The storage once the worker has written what was queued.
  abbrev pub worked_off : BadgerStorage D → BadgerStorage D
  worked_off s =
      with_system s (run_worker b j s.system (receive_all (queued s.system.queue.write_queue)))

  -- Once the worker has worked off its queue, the key of a write that was taken is not pending.
  taken_idle :
      IsBadger b
      → IsReliable b
      → (y : System D) (t : WriteTask) (q : Queue D) → Took y.queue t q
      → y.phase ≡ running
      → IsWorking (with_queue y q)
      → is_content_in_queue
          (run_worker b j (with_queue y q) (receive_all (queued q.write_queue))).queue
          (task_id t)
        ≡ false
  unfolding is_content_in_queue names
  taken_idle L rel y t q took run working =
      let es = receive_all (queued q.write_queue) in
      let y' = run_worker b j (with_queue y q) es in
      let left = (run_worker-completes b j L rel (with_queue y q) run working).0 in
      let none_left : pending y'.queue (task_id t) ≡ none =
        ap (λ ts. if names ts (task_id t) then none else pending y'.queue (task_id t)) (sym left)
        ∙ run_worker-uncovered b j (with_queue y q) es (task_id t)
        ∙ Took-uncovered y t q (task_id t) took
        ∙ ap (λ x. if x then none else uncovered y (task_id t)) (str_eq_refl (task_id t)) in
      ap (λ (o : Option WriteTask). elim o [ none ↦ false | some u ↦ true ]) none_left

  -- A GET of a valid identifier that is not pending, and whose content is stored, below its limit and
  -- not expired.
  pub get_content-counts :
      (x : Texts) (z : Sanitizer) (m : Moment) (s : BadgerStorage D) (id : Bytes) (c : Content)
      → validate_id v.limits.limits id ≡ none
      → is_content_in_queue s.system.queue id ≡ false
      → retrieve b j s.system.queue.db id ≡ ok c
      → is_access_exhausted c (get_access_count s.access_manager id) ≡ false
      → is_expired c m.now ≡ false
      → let am = (increment_access s.access_manager id).0 in
        get_content st v x z m s id ≡ (
          record s { access_manager = am },
          answer 200
              (bytes "Content retrieved successfully")
              (retrieved (record { content = c; access_count = get_access_count am c.id })),
        )
  unfolding get_content get_response badger_storage create_content_with_access
  get_content-counts x z m s id c valid idle stored below alive =
      let read = get-counts b j s m.gap m.events id m.channel m.now c idle stored below alive in
      rw (valid, get_content)
        (ap (λ (p : BadgerStorage D × Result ContentWithAccess). (p.0, get_response x z p.1)) read)

  module _ (L : IsBadger b) (rel : IsReliable b) (s s' : BadgerStorage D) (r : StorageRequest)
      (code : Bytes) where
    abbrev asked : Content
    asked = content_of_request r v.now

    -- If a request is answered 202, on a queue whose sizes are in order and that has a running
    -- worker whose batch and timer are in order, on a database that takes every write, and the
    -- content can be encoded and decoded: once the worker has worked off its queue, a GET of the
    -- identifier before the content expires, and while it has not been read as often as its limit
    -- allows, is answered 200 with the content that was sent, and with a count that is one
    -- higher.
    pub store_then_get :
        (x : Texts) (z : Sanitizer) (m : Moment) (resp : Response)
        → store_content st v s (bound r) ≡ some (s', resp)
        → resp.status ≡ 202
        → j.marshal asked ≡ some code
        → j.unmarshal code ≡ some asked
        → IsSized s.system.queue
        → IsWorking s.system
        → s.system.phase ≡ running
        → is_access_exhausted asked (get_access_count s.access_manager r.id) ≡ false
        → is_expired asked m.now ≡ false
        → let got = (get_content st v x z m (worked_off s') r.id).1 in
          (got.status ≡ 200)
          × (got.body
              ≡ retrieved (record {
                content = asked;
                access_count = add (get_access_count s.access_manager r.id) 1;
              }))
    unfolding content_of_request
    store_then_get x z m resp posted accepted coded decodes sized working run below alive =
        let (valid, stored) = store_content-queued s s' r resp posted accepted in
        let (q, same, took) = store-Took b j s s' asked code coded sized stored in
        let s1 = with_system s (with_queue s.system q) in
        let working' : IsWorking s1.system = record {
          positive = omega (arith, took.same_size, working.positive);
          signed = omega (arith, took.same_size, working.signed);
          below = omega (arith, took.same_size, working.below);
          timed = working.timed;
        } in
        let got =
          get_content-counts x z m (worked_off s1) r.id asked valid
            (taken_idle L rel s.system (async_task asked code) q took run working')
            (read_after_write b j L rel s.system asked code q decodes took run working') below
            alive in
        let one_more =
          ap (λ n. retrieved (record { content = asked; access_count = n }))
            ((increment_access_lem s.access_manager r.id r.id).0
              ∙ ap
                  (λ t.
                    if t
                    then add (get_access_count s.access_manager r.id) 1
                    else get_access_count s.access_manager r.id)
                  (str_eq_refl r.id)) in
        subst (λ w. IsAnswered (get_content st v x z m (worked_off w) r.id).1) (sym same)
          (subst (λ (p : BadgerStorage D × Response). IsAnswered p.1) (sym got) (refl, one_more))
      where
        IsAnswered : Response → Type 0
        IsAnswered got =
            (got.status ≡ 200)
            × (got.body
                ≡ retrieved (record {
                  content = asked;
                  access_count = add (get_access_count s.access_manager r.id) 1;
                }))
