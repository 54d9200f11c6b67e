-- ===== src/Handlers/Content.antt =====
-- internal/handlers/content.go: the requests on contents, over the interface `Storage`. Binding of the
-- request body (echo) is a parameter; log lines and delays are left out.
pub mod Stores
pub mod Removes
pub mod Answers
use content_storage_server.Prelude.{
  ℕ, zero, suc, Bool, true, false, not, ◌&&◌, ◌||◌, Option, none, some, List, [], ◌∷◌, Bytes, bytes,
  str_eq, contains, is_nil, if◌then◌else◌,
}
use content_storage_server.Prelude.Int64.{Int64}
use content_storage_server.Prelude.Assoc
use content_storage_server.Prelude.Assoc.{Assoc}
use content_storage_server.Models.Content.{Content, ContentWithAccess, StorageRequest}
use content_storage_server.Storage.Error.{
  Error, Result, ok, err, content_not_found, content_expired, access_limit_reached,
}
use content_storage_server.Storage.Error.Message.{Texts, message}
use content_storage_server.Storage.Listing.{ContentFilter}
use content_storage_server.Storage.Api.{Storage}
use content_storage_server.Handlers.Http.{
  DeleteFailure, by_storage, attempts_exhausted, Body, bind_error, refusal, request_refusal,
  type_not_allowed, storage_error, delete_error, safe_text, id_status, deleted, retrieved, listed,
  counted, Response,
}
use content_storage_server.Handlers.Errors.{Sanitizer, sanitize_error, sanitize_error_with_prefix}
use content_storage_server.Handlers.Validation.{
  Checked, accepted, refused, validate_id, validate_content_type, validate_pagination_params,
  parse_content_filter,
}
use content_storage_server.Handlers.Validation.Request.{
  RequestLimits, includes, validate_storage_request,
}

-- c.Bind: the request, or the text of its error.
pub data Binding : Type 0 where
  bound : StorageRequest → Binding
  unbound : Bytes → Binding

abbrev pub answer : ℕ → Bytes → Body → Response
answer status text body = record { status = status; success = true; message = text; body = body }

abbrev pub failure : ℕ → Bytes → Body → Response
failure status text body = record { status = status; success = false; message = text; body = body }

-- The content that a request asks to store.
unfoldable pub content_of_request : StorageRequest → ℕ → Content
content_of_request r now = record {
  id = r.id;
  payload = r.payload;
  content_type = r.content_type;
  tag = r.tag;
  created_at = now;
  expires_at = r.expires_at;
  access_limit = r.access_limit;
}

-- What `GetContent` answers to an error of the storage.
unfoldable pub get_failure : Texts → Sanitizer → Error → Response
unfolding sanitize_error sanitize_error_with_prefix
get_failure x z content_not_found =
    failure 404 (bytes "Content not found") (storage_error content_not_found)
get_failure x z content_expired =
    failure 404 (bytes "Content has expired") (storage_error content_expired)
get_failure x z access_limit_reached =
    failure 410 (bytes "Content access limit reached") (storage_error access_limit_reached)
get_failure x z e =
    failure 500 (sanitize_error_with_prefix z (message x e) (bytes "Failed to retrieve content"))
      (safe_text (sanitize_error z (message x e)))

unfoldable pub get_response : Texts → Sanitizer → Result ContentWithAccess → Response
unfolding get_failure
get_response x z (ok c) = answer 200 (bytes "Content retrieved successfully") (retrieved c)
get_response x z (err e) = get_failure x z e

-- err == storage.ErrContentNotFound
abbrev pub is_not_found : DeleteFailure → Bool
is_not_found (by_storage content_not_found) = true
is_not_found _ = false

unfoldable pub delete_response : Bytes → Option DeleteFailure → Response
delete_response id none = answer 200 (bytes "Content deleted successfully") (deleted id)
delete_response id (some e) =
    if is_not_found e
    then failure 404 (bytes "Content not found") (delete_error e)
    else failure 500 (bytes "Failed to delete content") (delete_error e)

unfoldable pub status_response : Bytes → Result Content → Response
status_response id (ok c) =
    answer 200 (bytes "Content status retrieved successfully") (id_status id (bytes "stored"))
status_response id (err content_not_found) =
    failure 404 (bytes "Content not found") (id_status id (bytes "not_found"))
status_response id (err e) = failure 500 (bytes "Failed to check content status") (storage_error e)

unfoldable pub store_response : Bytes → Option Error → Response
store_response id none =
    answer 202 (bytes "Content queued for storage") (id_status id (bytes "queued"))
store_response id (some e) = failure 500 (bytes "Failed to store content") (storage_error e)

-- The keys of a query that are filters.
abbrev pub is_filter_key : Bytes → Bool
is_filter_key k =
    str_eq k (bytes "type")
    || str_eq k (bytes "tag")
    || str_eq k (bytes "created_after")
    || str_eq k (bytes "created_before")
    || str_eq k (bytes "include_expired")

-- The first value of each filter of the query.
unfoldable pub filter_params : Assoc (List Bytes) → Assoc Bytes
filter_params [] = []
filter_params ((k, []) ∷ q) = filter_params q
filter_params ((k, v ∷ vs) ∷ q) =
    let rest = filter_params q in if is_filter_key k then (k, v) ∷ rest else rest

-- m[k] of a map of strings.
unfoldable pub string_at : Assoc Bytes → Bytes → Bytes
string_at m k = elim (Assoc.get m k) [ none ↦ [] | some v ↦ v ]

-- c.QueryParam(k)
unfoldable pub query_param : Assoc (List Bytes) → Bytes → Bytes
query_param q k = elim (Assoc.get q k) [ none ↦ [] | some vs ↦ elim vs [ [] ↦ [] | v ∷ rest ↦ v ] ]

-- The validator's settings, the JSON and struct validators and the clock, for one request.
pub record Validator : Type 0 where
  pub limits : RequestLimits
  pub json_valid : Bytes → Bool
  pub struct_valid : StorageRequest → Bool
  pub parse_rfc3339 : Bytes → Option ℕ
  pub now : ℕ
  pub farthest : ℕ

-- The checks of `StoreContent`, in their order: the first refusal.
unfoldable pub check_request : Validator → StorageRequest → Option Response
check_request v r = elim (validate_id v.limits.limits r.id) [
  | some e ↦ some (failure 400 (bytes "Validation failed") (refusal e))
  | none ↦ elim (validate_content_type v.limits.limits r.content_type) [
    | some e ↦ some (failure 415 (bytes "Unsupported Media Type") (refusal e))
    | none ↦
        if not (is_nil v.limits.allowed_content_types)
          && not (includes v.limits.allowed_content_types r.content_type)
        then some (failure 415 (bytes "Unsupported Media Type") (type_not_allowed r.content_type))
        else (elim (validate_storage_request v.json_valid v.struct_valid v.limits v.now v.farthest
            r) [
              | some e ↦ some (failure 400 (bytes "Validation failed") (request_refusal e))
              | none ↦ none
            ])
  ]
]

module _ {S M : Type 0} (st : Storage S M) (v : Validator) where
  unfoldable pub store_valid : S → StorageRequest → Option (S × Response)
  unfolding content_of_request store_response
  store_valid s r = elim (st.store s (content_of_request r v.now)) [
    | none ↦ none
    | some (s', e) ↦ some (s', store_response r.id e)
  ]

  -- `StoreContent`; none if the call of the storage does not return.
  unfoldable pub store_content : S → Binding → Option (S × Response)
  unfolding check_request store_valid
  store_content s (unbound text) =
      some (s, failure 400 (bytes "Invalid request body") (bind_error text))
  store_content s (bound r) = elim (check_request v r) [
    | some refused_with ↦ some (s, refused_with)
    | none ↦ store_valid s r
  ]

  unfoldable pub get_content : Texts → Sanitizer → M → S → Bytes → S × Response
  unfolding get_response
  get_content x z m s id = elim (validate_id v.limits.limits id) [
    | some e ↦ (s, failure 400 (bytes "Invalid content ID") (refusal e))
    | none ↦ let (s', r) = st.get m s id in (s', get_response x z r)
  ]

  -- The attempts of `deleteWithRetry` that are left; attempt `n` runs at `ms n`, a delete and a wait.
  unfoldable pub delete_attempts :
      Texts → (ℕ → M × M) → ℕ → S → Bytes → Option Error → S × Option DeleteFailure
  delete_attempts x ms zero s id none = (s, some attempts_exhausted)
  delete_attempts x ms zero s id (some e) = (s, some (by_storage e))
  delete_attempts x ms (suc n) s id last =
      let (s1, r) = st.delete (ms n).0 s id in
      elim r [
        | none ↦ (s1, none)
        | some e ↦ elim (contains (message x e) (bytes "currently being written")) [
          | false ↦ (s1, some (by_storage e))
          | true ↦
              let (s2, w) = st.wait_for_content_write (ms n).1 s1 id in
              elim w [
                | some late ↦ (s2, some (by_storage late))
                | none ↦ delete_attempts x ms n s2 id (some e)
              ]
        ]
      ]

  unfoldable pub delete_with_retry : Texts → (ℕ → M × M) → S → Bytes → S × Option DeleteFailure
  unfolding delete_attempts
  delete_with_retry x ms s id = delete_attempts x ms 3 s id none

  unfoldable pub delete_content : Texts → (ℕ → M × M) → S → Bytes → S × Response
  unfolding delete_with_retry delete_response
  delete_content x ms s id = elim (validate_id v.limits.limits id) [
    | some e ↦ (s, failure 400 (bytes "Invalid content ID") (refusal e))
    | none ↦ let (s', r) = delete_with_retry x ms s id in (s', delete_response id r)
  ]

  -- Each content with its count.
  unfoldable pub with_counts : S → List Content → List ContentWithAccess
  with_counts s [] = []
  with_counts s (c ∷ cs) =
      record { content = c; access_count = st.get_access_count s c.id } ∷ with_counts s cs

  -- The page at `m`, and the count at `m'`.
  unfoldable pub list_page : M → M → S → Int64 → Int64 → Assoc Bytes → ContentFilter → Response
  unfolding with_counts
  list_page m m' s limit offset params f = elim (st.list_with_filter m s limit offset (some f)) [
    | err e ↦ failure 500 (bytes "Failed to list content") (storage_error e)
    | ok cs ↦
        answer 200 (bytes "Content listed successfully")
          (listed (with_counts s cs) (st.count_with_filter m' s (some f)) limit offset params)
  ]

  -- `ListContent` of a query; the storage stays as it is.
  unfoldable pub list_content : M → M → S → Assoc (List Bytes) → Response
  unfolding list_page filter_params query_param string_at
  list_content m m' s q =
      elim (validate_pagination_params v.limits.limits (query_param q (bytes "limit"))
        (query_param q (bytes "offset"))) [
          | refused e ↦ failure 400 (bytes "Invalid pagination parameters") (refusal e)
          | accepted (limit, offset) ↦
              elim (parse_content_filter v.parse_rfc3339 v.limits.limits
                (string_at (filter_params q))) [
                  | refused e ↦ failure 400 (bytes "Invalid filter parameters") (refusal e)
                  | accepted f ↦ list_page m m' s limit offset (filter_params q) f
                ]
        ]

  unfoldable pub get_content_count : S → Response
  get_content_count s =
      answer 200 (bytes "Content count retrieved successfully") (counted (st.count s))

  unfoldable pub get_content_status : M → S → Bytes → S × Response
  unfolding status_response
  get_content_status m s id = elim (validate_id v.limits.limits id) [
    | some e ↦ (s, failure 400 (bytes "Invalid content ID") (refusal e))
    | none ↦
        if st.is_content_in_queue s id
        then (
          s,
          answer 200 (bytes "Content status retrieved successfully")
              (id_status id (bytes "queued")),
        )
        else (let (s', r) = st.get_read_only m s id in (s', status_response id r))
  ]
