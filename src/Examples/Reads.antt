-- ===== src/Examples/Reads.antt =====
-- Reads, deletes, pages and access counts of small stores.
use content_storage_server.Prelude.{
  ◌+◌, ◌-◌, ◌≡◌, refl, false, ◌&&◌, Option, none, some, List, [], ◌∷◌, arith, Bytes, bytes, str_eq,
  if◌then◌else◌,
}
use Prim.Native.Nat.{min}
use content_storage_server.Prelude.Assoc
use content_storage_server.Prelude.Assoc.{Assoc}
use content_storage_server.Models.Content.{Content, is_expired}
use content_storage_server.Storage.Badger.{missing}
use content_storage_server.Storage.CountedSyncMap
use content_storage_server.Storage.Error.{ok}
use content_storage_server.Storage.Queue.{Queue, queued}
use content_storage_server.Storage.Queue.Write.Accept.{Took, async_task}
use content_storage_server.Storage.Queue.Worker.{run_worker}
use content_storage_server.Storage.Queue.Worker.Progress.{receive_all}
use content_storage_server.Storage.Access.{get_access_count}
use content_storage_server.Storage.Listing.{ContentFilter, matches, list_with_filter}
use content_storage_server.Storage.Crud.{with_queue, retrieve, content_exists, delete_existing}
use content_storage_server.Storage.Crud.Reads.{read_after_write}
use content_storage_server.Storage.Crud.Limits.{read_times, reads_so_far, read_times_lem}
use content_storage_server.Storage.Crud.Deletes.{succeeded, delete_existing_lem}
use content_storage_server.Examples.{
  memory, memory-IsBadger, memory-IsReliable, content_of, plain, a_key, b_key, one_stored,
}

stored_a : retrieve memory plain one_stored.system.queue.db a_key ≡ ok (content_of a_key)
unfolding retrieve Assoc.get str_eq
stored_a = refl

once_read : get_access_count one_stored.access_manager a_key ≡ 1
unfolding get_access_count Assoc.get str_eq
once_read = refl

alive_at_50 : is_expired (content_of a_key) 50 ≡ false
unfolding is_expired
alive_at_50 = refl

read_times_example :
    ((read_times memory plain 3 one_stored a_key 50).1
      ≡ min 3 (2 - reads_so_far memory plain one_stored a_key))
    × (reads_so_far memory plain (read_times memory plain 3 one_stored a_key 50).0 a_key
        ≡ reads_so_far memory plain one_stored a_key
          + min 3 (2 - reads_so_far memory plain one_stored a_key))
read_times_example =
    read_times_lem memory plain a_key 50 (content_of a_key) 2 refl (omega arith) alive_at_50 3
      one_stored stored_a (omega (arith, once_read))

delete_existing_example :
    let out =
      delete_existing memory plain one_stored a_key
        (content_exists memory plain one_stored.system.queue.db a_key) in
    (memory.read out.0.system.queue.db a_key ≡ (
      if succeeded out.1 && str_eq a_key a_key
      then missing
      else memory.read one_stored.system.queue.db a_key))
    × (get_access_count out.0.access_manager a_key ≡ (
        if succeeded out.1 && str_eq a_key a_key
        then 0
        else get_access_count one_stored.access_manager a_key))
delete_existing_example = delete_existing_lem memory plain memory-IsBadger one_stored a_key a_key

-- The content is taken into an empty queue.
abbrev one_taken : Queue (Assoc Bytes)
one_taken = record one_stored.system.queue {
  write_queue = some (record { buffered = async_task (content_of b_key) b_key ∷ []; capacity = 2 });
  pending_items = record { items = (b_key, async_task (content_of b_key) b_key) ∷ []; total = 1 };
}

one_taken-Took : Took one_stored.system.queue (async_task (content_of b_key) b_key) one_taken
unfolding CountedSyncMap.load Assoc.get
one_taken-Took = record {
  appended = refl;
  now_pending = λ k. ground arith;
  same_db = refl;
  same_size = refl;
  sized = record {
    fits = (refl, omega arith);
    grown = omega arith;
    size_small = omega arith;
    limit_small = omega arith;
  };
}

read_after_write_example :
    retrieve memory plain
      (run_worker memory plain
        (with_queue one_stored.system one_taken)
        (receive_all (queued one_taken.write_queue))).queue.db
      b_key
    ≡ ok (content_of b_key)
read_after_write_example =
    read_after_write memory plain memory-IsBadger memory-IsReliable one_stored.system
      (content_of b_key) b_key one_taken refl one_taken-Took refl
      (record { positive = omega arith; signed = omega arith; below = omega arith; timed = refl })

-- Three stored contents.
abbrev three : Assoc Bytes
three = (a_key, a_key) ∷ (b_key, b_key) ∷ (bytes "c", bytes "c") ∷ []

abbrev contents : List Content
contents = content_of a_key ∷ content_of b_key ∷ content_of (bytes "c") ∷ []

abbrev tagless : Option ContentFilter
tagless = some (record {
  content_type = bytes "text/plain";
  tag = [];
  created_after = some 1;
  created_before = none;
  include_expired = false;
})

first_page : list_with_filter plain 50 tagless memory three 1 0 ≡ ok (content_of a_key ∷ [])
unfolding list_with_filter matches str_eq is_expired
first_page = refl

second_page : list_with_filter plain 50 tagless memory three 1 1 ≡ ok (content_of b_key ∷ [])
unfolding list_with_filter matches str_eq is_expired
second_page = refl
