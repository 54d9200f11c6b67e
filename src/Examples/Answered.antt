-- ===== src/Examples/Answered.antt =====
-- Requests and their answers over a small store.
use content_storage_server.Prelude.{
  map, ℕ, ◌+◌, ◌-◌, ◌≡◌, ◌⊎◌, refl, true, false, none, some, List, [], ◌∷◌, ◌++◌, arith, Bytes,
  bytes, str_eq, has_prefix, has_suffix, contains, length, keep, take, drop, ◌==◌,
}
use Prim.Native.Nat.{min}
use content_storage_server.Prelude.Int64.{add}
use content_storage_server.Prelude.Assoc
use content_storage_server.Prelude.Assoc.{Assoc}
use content_storage_server.Models.Content.{StorageRequest, is_expired, is_access_exhausted}
use content_storage_server.Storage.Error.{ok}
use content_storage_server.Storage.Error.Message.{Texts}
use content_storage_server.Storage.CountedSyncMap
use content_storage_server.Storage.Access.{get_access_count}
use content_storage_server.Storage.Listing.{ContentFilter, decode_item}
use content_storage_server.Storage.Listing.Pages.{Decodes}
use content_storage_server.Storage.Queue.{is_content_in_queue, store_pending_item}
use content_storage_server.Storage.Queue.Write.{queue_write, enqueue, try_enqueue}
use content_storage_server.Storage.Queue.Write.Capacity.{IsSized}
use content_storage_server.Storage.Queue.Worker.{receive}
use content_storage_server.Storage.Queue.Worker.Bounds.{IsWorking}
use content_storage_server.Storage.Queue.Write.Accept.{async_task}
use content_storage_server.Storage.Crud.{BadgerStorage, with_system, with_queue, retrieve, store}
use content_storage_server.Storage.Crud.Limits.{reads_so_far}
use content_storage_server.Storage.Api.{Moment, badger_storage}
use content_storage_server.Handlers.Http.{retrieved, listed, id_status}
use content_storage_server.Handlers.Errors.{
  Sanitizer, safe_errors, generic_error, sanitize_error, sanitize_error_with_prefix,
}
use content_storage_server.Handlers.Errors.Safe.{shows, is_safe, IsTable, sanitize_error-IsSafe}
use content_storage_server.Handlers.Validation.Utf8.{run_utf8, next_byte, first_byte, valid_utf8}
use content_storage_server.Handlers.Validation.Atoi.{atoi, digits, digits_from}
use content_storage_server.Handlers.Validation.{
  accepted, id_char, type_char, all_chars, dangerous, validate_id, validate_content_type,
  validate_access_limit, validate_expiration_time, validate_pagination_params, parse_limit,
  checked_limit, parse_offset, checked_offset, parse_content_filter, parse_type_filter,
  parse_tag_filter, validate_tag, parse_time_filter, parse_include_expired, check_range, to_lower,
}
use content_storage_server.Handlers.Validation.Request.{
  validate_storage_request, validate_full, validate_data, validate_data_by_type, validate_text_data,
  calculate_data_size, is_nil_data, is_empty_text,
}
use content_storage_server.Handlers.Content.{
  bound, Validator, answer, content_of_request, check_request, store_response, store_valid,
  store_content, get_content, delete_content, filter_params, query_param, string_at, list_content,
}
use content_storage_server.Storage.Access.{get_access_count}
use content_storage_server.Storage.Listing.Wanted.{is_wanted}
use content_storage_server.Handlers.Content.Stores.{worked_off, store_then_get}
use content_storage_server.Handlers.Content.Removes.{Removes, delete_content-Removes}
use content_storage_server.Handlers.Content.Answers.{get_times, get_times_lem, list_content_lem}
use content_storage_server.Examples.{
  items, memory, memory-IsBadger, memory-IsReliable, content_of, plain, a_key, b_key, one_stored,
}

abbrev validator : Validator
validator = record {
  limits = record {
    limits = record {
      max_id_length = 255;
      max_type_length = 100;
      max_access_limit = 1000000;
      max_pagination_limit = 1000;
    };
    max_content_size = 1048576;
    allowed_content_types = [];
    performance_mode = false;
  };
  json_valid = λ s. true;
  struct_valid = λ r. true;
  parse_rfc3339 = λ s. none;
  now = 5;
  farthest = 1000;
}

abbrev texts : Texts
texts = record { conflict_text = bytes "Transaction Conflict"; unmarshal_text = bytes "no JSON" }

abbrev sanitizer : Sanitizer
sanitizer = record { to_lower = to_lower; order = safe_errors }

abbrev at_50 : Moment
at_50 = record { gap = []; events = receive ∷ []; later = receive ∷ []; channel = 9; now = 50 }

safe_errors-IsTable : IsTable safe_errors
unfolding safe_errors str_eq
safe_errors-IsTable =
    (refl, (refl, (refl, (refl, (refl, (refl, (refl, (refl, (refl, (refl, (refl, tt)))))))))))

sanitize_error_example :
    (is_safe (sanitize_error sanitizer (bytes "open /etc: forbidden")) ≡ true)
    × ((shows safe_errors
            (sanitize_error_with_prefix sanitizer (bytes "open /etc: forbidden") (bytes "Failed"))
          ≡ true)
        ⊎ (sanitize_error_with_prefix sanitizer (bytes "open /etc: forbidden") (bytes "Failed")
            ≡ bytes "Failed" ++ bytes ": " ++ generic_error))
sanitize_error_example =
    sanitize_error-IsSafe sanitizer (bytes "open /etc: forbidden") (bytes "Failed")
      safe_errors-IsTable

abbrev b_request : StorageRequest
b_request = record {
  id = b_key;
  payload = b_key;
  content_type = bytes "text/plain";
  tag = [];
  expires_at = some 100;
  access_limit = some 2;
}

-- The queue after the content was taken.
abbrev with_b : BadgerStorage (Assoc Bytes)
with_b = with_system one_stored (
    with_queue one_stored.system (record one_stored.system.queue {
      write_queue =
          some (record { buffered = async_task (content_of b_key) b_key ∷ []; capacity = 2 });
      pending_items = record {
        items = (b_key, async_task (content_of b_key) b_key) ∷ [];
        total = 1;
      };
      metrics = record one_stored.system.queue.metrics { total_queued = 3 };
    }))

b_posted :
    store_content (badger_storage memory plain) validator one_stored (bound b_request)
    ≡ some
        (with_b, answer 202 (bytes "Content queued for storage") (id_status b_key (bytes "queued")))
unfolding store_content store_valid validate_id valid_utf8 run_utf8 next_byte first_byte all_chars
    id_char dangerous contains has_prefix has_suffix validate_content_type type_char
    validate_storage_request validate_full validate_data validate_data_by_type validate_text_data
    validate_access_limit validate_expiration_time badger_storage store queue_write enqueue
    try_enqueue store_pending_item store_response content_of_request check_request
    calculate_data_size is_nil_data is_empty_text CountedSyncMap.store Assoc.put Assoc.remove
    Assoc.has Assoc.get str_eq
b_posted = refl

one_stored-IsSized : IsSized one_stored.system.queue
one_stored-IsSized = record {
  fits = (refl, omega arith);
  grown = omega arith;
  size_small = omega arith;
  limit_small = omega arith;
}

one_stored-IsWorking : IsWorking one_stored.system
one_stored-IsWorking = record {
  positive = omega arith;
  signed = omega arith;
  below = omega arith;
  timed = refl;
}

b_unread :
    is_access_exhausted (content_of b_key) (get_access_count one_stored.access_manager b_key)
    ≡ false
unfolding is_access_exhausted get_access_count Assoc.get str_eq
b_unread = refl

b_alive : is_expired (content_of b_key) 50 ≡ false
unfolding is_expired
b_alive = refl

b_decodes : plain.unmarshal b_key ≡ some (content_of_request b_request 5)
unfolding content_of_request
b_decodes = refl

b_coded : plain.marshal (content_of_request b_request 5) ≡ some b_key
unfolding content_of_request
b_coded = refl

b_unread_asked :
    is_access_exhausted
      (content_of_request b_request 5)
      (get_access_count one_stored.access_manager b_key)
    ≡ false
unfolding content_of_request
b_unread_asked = b_unread

b_alive_asked : is_expired (content_of_request b_request 5) 50 ≡ false
unfolding content_of_request
b_alive_asked = b_alive

store_then_get_example :
    let got =
      (get_content
        (badger_storage memory plain)
        validator
        texts
        sanitizer
        at_50
        (worked_off memory plain validator with_b)
        b_key).1 in
    (got.status ≡ 200)
    × (got.body
        ≡ retrieved (record {
          content = content_of_request b_request 5;
          access_count = add (get_access_count one_stored.access_manager b_key) 1;
        }))
store_then_get_example =
    store_then_get memory plain validator memory-IsBadger memory-IsReliable one_stored with_b
      b_request b_key texts sanitizer at_50
      (answer 202 (bytes "Content queued for storage") (id_status b_key (bytes "queued"))) b_posted
      refl b_coded b_decodes one_stored-IsSized one_stored-IsWorking refl b_unread_asked
      b_alive_asked

abbrev each_time : ℕ → Moment × Moment
each_time n = (at_50, at_50)

delete_content_example :
    let out =
      delete_content (badger_storage memory plain) validator texts each_time one_stored a_key in
    Removes memory plain one_stored out.0 a_key (out.1.status == 200)
delete_content_example =
    delete_content-Removes memory plain validator texts each_time memory-IsBadger memory-IsReliable
      one_stored a_key

a_valid : validate_id validator.limits.limits a_key ≡ none
unfolding validate_id all_chars id_char dangerous contains has_prefix has_suffix valid_utf8 run_utf8
    next_byte first_byte
a_valid = refl

a_idle : is_content_in_queue one_stored.system.queue a_key ≡ false
unfolding is_content_in_queue CountedSyncMap.load Assoc.get
a_idle = refl

a_stored : retrieve memory plain one_stored.system.queue.db a_key ≡ ok (content_of a_key)
unfolding retrieve Assoc.get str_eq
a_stored = refl

a_alive : is_expired (content_of a_key) 50 ≡ false
unfolding is_expired
a_alive = refl

a_read_once : get_access_count one_stored.access_manager a_key ≡ 1
unfolding get_access_count Assoc.get str_eq
a_read_once = refl

get_times_example :
    let out = get_times memory plain validator texts sanitizer at_50 a_key 3 one_stored in
    let so_far = reads_so_far memory plain one_stored a_key in
    (out.1 ≡ min 3 (2 - so_far))
    × (reads_so_far memory plain out.0 a_key ≡ so_far + min 3 (2 - so_far))
get_times_example =
    get_times_lem memory plain validator texts sanitizer at_50 a_key 3 one_stored (content_of a_key)
      2 a_valid a_idle a_stored refl (omega arith) a_alive (omega (arith, a_read_once))

abbrev query : Assoc (List Bytes)
query = (bytes "limit", bytes "5" ∷ []) ∷ (bytes "type", bytes "text/plain" ∷ []) ∷ []

abbrev plain_texts : ContentFilter
plain_texts = record {
  content_type = bytes "text/plain";
  tag = [];
  created_after = none;
  created_before = none;
  include_expired = false;
}

query_pages :
    validate_pagination_params validator.limits.limits
      (query_param query (bytes "limit"))
      (query_param query (bytes "offset"))
    ≡ accepted (5, 0)
unfolding query_param Assoc.get str_eq validate_pagination_params parse_limit checked_limit
    parse_offset checked_offset atoi digits digits_from
query_pages = refl

query_filter :
    parse_content_filter validator.parse_rfc3339 validator.limits.limits
      (string_at (filter_params query))
    ≡ accepted plain_texts
unfolding string_at filter_params Assoc.get str_eq parse_content_filter parse_type_filter
    parse_tag_filter validate_tag parse_time_filter parse_include_expired check_range contains
    has_prefix
query_filter = refl

one_stored-Decodes : Decodes plain (items one_stored.system.queue.db) (content_of a_key ∷ [])
unfolding decode_item
one_stored-Decodes = (refl, tt)

list_content_example :
    list_content (badger_storage memory plain) validator at_50 at_50 one_stored query
    ≡ answer 200 (bytes "Content listed successfully") (
        listed
          (map
            (λ c. record {
              content = c;
              access_count = get_access_count one_stored.access_manager c.id;
            })
            (take 5 (drop 0 (keep (is_wanted 50 plain_texts) (content_of a_key ∷ [])))))
          (length (keep (is_wanted 50 plain_texts) (content_of a_key ∷ [])))
          5
          0
          (filter_params query))
list_content_example =
    list_content_lem memory plain validator at_50 at_50 one_stored query
      (items one_stored.system.queue.db) (content_of a_key ∷ []) 5 0 plain_texts refl
      one_stored-Decodes query_pages query_filter (omega arith) (omega arith)
