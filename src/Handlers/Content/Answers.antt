-- ===== src/Handlers/Content/Answers.antt =====
-- What internal/handlers/content.go answers over `BadgerStorage`: how many GETs of a limited content
-- succeed, what the status request says and leaves alone, and what a page of the list holds.
use content_storage_server.Prelude.{
  ℕ, zero, suc, ◌+◌, ◌-◌, ◌<◌, ◌≤◌, ◌≡◌, refl, ap, ◌∙◌, inl, inr, true, false, none, some, List, [],
  ◌∷◌, map, arith, Bytes, bytes, if◌then◌else◌, ◌==◌, Bool-cases, length, keep, take, drop,
}
use Prim.Native.Nat.{min}
use content_storage_server.Prelude.Int64.{Int64}
use content_storage_server.Prelude.Assoc.{Assoc}
use content_storage_server.Models.Content.{Content, is_expired}
use content_storage_server.Storage.Badger.{Badger, Codec, Item}
use content_storage_server.Storage.Error.{
  Error, Result, ok, err, content_not_found, content_expired, access_limit_reached,
}
use content_storage_server.Storage.Error.Message.{Texts}
use content_storage_server.Storage.Access.{get_access_count}
use content_storage_server.Storage.Queue.{is_content_in_queue}
use content_storage_server.Storage.Listing.{ContentFilter, matches_filter}
use content_storage_server.Storage.Listing.Wanted.{is_wanted, keep-wanted}
use content_storage_server.Storage.Listing.Pages.{
  Decodes, list_with_filter_lem, count_with_filter_lem,
}
use content_storage_server.Storage.Crud.{
  BadgerStorage, retrieve, read_content, get, get_content_from_db,
}
use content_storage_server.Storage.Crud.Reads.{no_wait, get_read_only_lem}
use content_storage_server.Storage.Crud.Limits.{is_ok, read_times, reads_so_far, read_times_lem}
use content_storage_server.Storage.Crud.Gets.{finished, counted_after}
use content_storage_server.Storage.Api.{Storage, Moment, badger_storage}
use content_storage_server.Handlers.Http.{Response, listed, id_status}
use content_storage_server.Handlers.Errors.{Sanitizer}
use content_storage_server.Handlers.Validation.{
  accepted, validate_id, validate_pagination_params, parse_content_filter,
}
use content_storage_server.Handlers.Validation.Accepts.{validate_pagination_params_lem}
use content_storage_server.Handlers.Content.{
  Validator, answer, get_failure, get_response, get_content, status_response, get_content_status,
  filter_params, query_param, string_at, with_counts, list_page, list_content,
}

failed_status :
    (x : Texts) (z : Sanitizer) (e : Error) → ((get_failure x z e).status == 200) ≡ false
unfolding get_failure
failed_status x z content_not_found = refl
failed_status x z content_expired = refl
failed_status x z access_limit_reached = refl
failed_status x z _ = refl

module _ {D B : Type 0} (b : Badger D B) (j : Codec) (v : Validator) where
  abbrev st : Storage (BadgerStorage D) Moment
  st = badger_storage b j

  -- For a valid identifier the status request answers 200 if it is pending; if not, 200 or 404 by
  -- what is stored, or 500 if that cannot be read. It never counts as a read, and leaves the
  -- storage as it is.
  pub get_content_status_lem :
      (m : Moment) (s : BadgerStorage D) (id : Bytes)
      → validate_id v.limits.limits id ≡ none
      → get_content_status st v m s id ≡ (
        s,
        if is_content_in_queue s.system.queue id
            then answer 200
                (bytes "Content status retrieved successfully")
                (id_status id (bytes "queued"))
            else status_response id (retrieve b j s.system.queue.db id),
      )
  unfolding get_content_status badger_storage
  get_content_status_lem m s id valid = elim (Bool-cases (is_content_in_queue s.system.queue id)) [
    | inl queued ↦ rw (valid, get_content_status) (rw queued refl)
    | inr idle ↦
        rw (valid, get_content_status)
          (rw idle (
            ap (λ (p : BadgerStorage D × Result Content). (p.0, status_response id p.1))
              (get_read_only_lem b j s m.gap m.events id m.channel m.now idle)))
  ]

  module _ (x : Texts) (z : Sanitizer) (m : Moment) (id : Bytes) where
    abbrev is_ok_status : Response → ℕ
    is_ok_status r = if r.status == 200 then 1 else 0

    -- `n` GETs of the identifier, one after the other, and how many of them were answered 200.
    pub get_times : ℕ → BadgerStorage D → BadgerStorage D × ℕ
    get_times zero s = (s, 0)
    get_times (suc n) s =
        let (s', r) = get_content st v x z m s id in
        let (s'', k) = get_times n s' in (s'', is_ok_status r + k)

    -- What a counted read is answered.
    abbrev answered : BadgerStorage D × Result Content → BadgerStorage D × Response
    answered p = (p.0, get_response x z (finished b j p).1)

    -- A GET of a key that is not pending is a counted read.
    idle_get :
        (s : BadgerStorage D)
        → validate_id v.limits.limits id ≡ none
        → is_content_in_queue s.system.queue id ≡ false
        → get_content st v x z m s id ≡ answered (read_content b j true s id m.now)
    unfolding get_content badger_storage get get_content_from_db
    idle_get s valid idle =
        rw (valid, get_content)
          (ap (λ w. answered (counted_after b j s id m.now w))
            (no_wait b j s.system m.gap m.events id m.channel idle))

    answered_status :
        (p : BadgerStorage D × Result Content) → is_ok_status (answered p).1 ≡ is_ok p.1
    unfolding get_response
    answered_status (s, ok c) = refl
    answered_status (s, err e) = ap (λ t. if t then 1 else 0) (failed_status x z e)

    idle-read :
        (s : BadgerStorage D)
        → is_content_in_queue s.system.queue id ≡ false
        → is_content_in_queue (read_content b j true s id m.now).0.system.queue id ≡ false
    unfolding read_content
    idle-read s idle = idle

    times_lem :
        (n : ℕ) (s : BadgerStorage D)
        → validate_id v.limits.limits id ≡ none
        → is_content_in_queue s.system.queue id ≡ false
        → get_times n s ≡ read_times b j n s id m.now
    unfolding get_times read_times
    times_lem zero s valid idle = refl
    times_lem (suc n) s valid idle =
        let p = read_content b j true s id m.now in
        let rest = read_times b j n p.0 id m.now in
        ap
          (λ (q : BadgerStorage D × Response).
            ((get_times n q.0).0, is_ok_status q.1 + (get_times n q.0).1))
          (idle_get s valid idle)
        ∙ ap (λ (r : BadgerStorage D × ℕ). (r.0, is_ok_status (answered p).1 + r.1))
            (times_lem n p.0 valid (idle-read s idle))
        ∙ ap (λ k. (rest.0, k + rest.1)) (answered_status p)

    -- Of n GETs, one after the other, of a valid identifier that is not pending, whose content is
    -- stored, has a limit below 2 ^ 63 that is not exceeded so far, and has not expired, as many
    -- are answered 200 as the limit leaves, and exactly these are counted.
    pub get_times_lem :
        (n : ℕ) (s : BadgerStorage D) (c : Content) (l : Int64)
        → validate_id v.limits.limits id ≡ none
        → is_content_in_queue s.system.queue id ≡ false
        → retrieve b j s.system.queue.db id ≡ ok c
        → c.access_limit ≡ some l
        → l < 9223372036854775808
        → is_expired c m.now ≡ false
        → reads_so_far b j s id ≤ l
        → ((get_times n s).1 ≡ min n (l - reads_so_far b j s id))
          × (reads_so_far b j (get_times n s).0 id
              ≡ reads_so_far b j s id + min n (l - reads_so_far b j s id))
    get_times_lem n s c l valid idle stored limited small alive below =
        rw (times_lem n s valid idle)
          (read_times_lem b j id m.now c l limited small alive n s stored below)

  module _ (m m' : Moment) (s : BadgerStorage D) (q : Assoc (List Bytes)) where
    counted_lem :
        (cs : List Content)
        → with_counts st v s cs
          ≡ map
              (λ c. record { content = c; access_count = get_access_count s.access_manager c.id })
              cs
    unfolding with_counts badger_storage
    counted_lem [] = refl
    counted_lem (c ∷ cs) =
        ap
          (λ rest.
            record { content = c; access_count = get_access_count s.access_manager c.id } ∷ rest)
          (counted_lem cs)

    -- On a database whose entries decode to `cs`, a query with valid parameters is answered 200.
    -- The page is what is left of the contents that the filter wants after the first `offset`,
    -- cut to `limit`, each with the access count of its identifier; the total is the number of
    -- contents that the filter wants: those that have no expiry or one not before the time of the
    -- call, unless it includes expired ones, that have its type and its tag where it names them,
    -- and that were made at or after its one time and before its other where it has them. Limit
    -- and offset are below 2 ^ 63.
    pub list_content_lem :
        (is : List Item) (cs : List Content) (limit offset : Int64) (f : ContentFilter)
        → b.scan s.system.queue.db ≡ ok is
        → Decodes j is cs
        → validate_pagination_params v.limits.limits
            (query_param q (bytes "limit"))
            (query_param q (bytes "offset"))
          ≡ accepted (limit, offset)
        → parse_content_filter v.parse_rfc3339 v.limits.limits (string_at (filter_params q))
          ≡ accepted f
        → limit < 9223372036854775808
        → offset < 9223372036854775808
        → list_content st v m m' s q
          ≡ answer 200 (bytes "Content listed successfully") (
              listed
                (map
                  (λ c. record {
                    content = c;
                    access_count = get_access_count s.access_manager c.id;
                  })
                  (take limit (drop offset (keep (is_wanted m.now f) cs))))
                (length (keep (is_wanted m'.now f) cs))
                limit
                offset
                (filter_params q))
    unfolding list_content list_page badger_storage
    list_content_lem is cs limit offset f scanned d paged filtered small small' =
        let bounds =
          validate_pagination_params_lem v.limits.limits (query_param q (bytes "limit"))
            (query_param q (bytes "offset")) limit offset paged in
        let pos : 0 < limit = ground (arith, bounds.0) in
        let page =
          list_with_filter_lem j m.now (some f) b s.system.queue.db is cs limit offset scanned d pos
            small small' in
        let total = count_with_filter_lem j m'.now (some f) b s.system.queue.db is cs scanned d in
        rw (paged, list_content)
          (rw (filtered, list_content)
            (rw (page, list_page)
              (rw (total, list_page)
                (rw
                  (
                    counted_lem
                        (take limit (drop offset (keep (matches_filter m.now (some f)) cs))),
                    keep-wanted m.now f cs,
                    keep-wanted m'.now f cs,
                  )
                  refl))))
