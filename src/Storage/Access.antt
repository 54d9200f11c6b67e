-- ===== src/Storage/Access.antt =====
-- pkg/storage/access_manager.go: how often each content was read, in memory. Each method holds the
-- lock of the manager, so it is one step. The clock's reading is an argument.
pub mod Laws
use content_storage_server.Prelude.{
  ℕ, ◌+◌, ◌-◌, Bool, true, false, not, Option, none, some, List, [], ◌∷◌, Bytes, ◌==◌, length, leb,
  if◌then◌else◌,
}
use content_storage_server.Prelude.Int64.{Int64, add}
use content_storage_server.Prelude.Assoc
use content_storage_server.Prelude.Assoc.{Assoc}
use content_storage_server.Models.Content.{
  Content, AccessTracker, ContentWithAccess, increment_access_count, is_expired,
  is_access_exhausted,
}

pub record AccessManager : Type 0 where
  pub access_trackers : Assoc AccessTracker
  pub last_cleanup_time : ℕ
  pub cleanup_interval : ℕ

-- 30 minutes in nanoseconds.
unfoldable pub new_access_manager : ℕ → AccessManager
new_access_manager now = record {
  access_trackers = [];
  last_cleanup_time = now;
  cleanup_interval = 1800000000000;
}

abbrev new_tracker : Bytes → AccessTracker
new_tracker k = record { tracked_id = k; access_count = 0 }

-- The tracker of a key, made anew if there is none.
unfoldable pub tracker_of : Assoc AccessTracker → Bytes → AccessTracker
tracker_of m k = elim (Assoc.get m k) [ none ↦ new_tracker k | some t ↦ t ]

unfoldable pub increment_access : AccessManager → Bytes → AccessManager × Int64
unfolding tracker_of increment_access_count
increment_access am k =
    let t = increment_access_count (tracker_of am.access_trackers k) in
    (record am { access_trackers = Assoc.put am.access_trackers k t }, t.access_count)

unfoldable pub get_access_count : AccessManager → Bytes → Int64
get_access_count am k = elim (Assoc.get am.access_trackers k) [ none ↦ 0 | some t ↦ t.access_count ]

unfoldable pub set_access_count : AccessManager → Bytes → Int64 → AccessManager
unfolding tracker_of
set_access_count am k n = record am {
  access_trackers =
      Assoc.put am.access_trackers k
        (record (tracker_of am.access_trackers k) { access_count = n });
}

unfoldable pub remove_access : AccessManager → Bytes → AccessManager
remove_access am k = record am { access_trackers = Assoc.remove am.access_trackers k }

abbrev counts : Assoc AccessTracker → Assoc Int64
counts [] = []
counts ((k, t) ∷ m) = (k, t.access_count) ∷ counts m

unfoldable pub get_all_access_counts : AccessManager → Assoc Int64
get_all_access_counts am = counts am.access_trackers

unfoldable pub get_tracked_content_ids : AccessManager → List Bytes
get_tracked_content_ids am = Assoc.keys am.access_trackers

unfoldable pub clear : AccessManager → AccessManager
clear am = record am { access_trackers = [] }

-- content.IsExpired() || content.IsAccessExhausted(count)
unfoldable pub content_expired_or_exhausted : AccessManager → Content → ℕ → Bool
unfolding get_access_count is_expired is_access_exhausted
content_expired_or_exhausted am c now =
    if is_expired c now then true else is_access_exhausted c (get_access_count am c.id)

unfoldable pub create_content_with_access : AccessManager → Content → ContentWithAccess
unfolding get_access_count
create_content_with_access am c = record { content = c; access_count = get_access_count am c.id }

-- existingContentIDs[k]
abbrev pub in_set : Assoc Bool → Bytes → Bool
in_set m k = elim (Assoc.get m k) [ none ↦ false | some b ↦ b ]

-- The keys of `toRemove`.
unfoldable pub stale_ids : Assoc AccessTracker → Assoc Bool → List Bytes
stale_ids [] existing = []
stale_ids ((k, t) ∷ m) existing =
    let rest = stale_ids m existing in if in_set existing k then rest else k ∷ rest

unfoldable pub remove_all : Assoc AccessTracker → List Bytes → Assoc AccessTracker
remove_all m [] = m
remove_all m (k ∷ ks) = remove_all (Assoc.remove m k) ks

unfoldable pub cleanup_expired_trackers : AccessManager → Assoc Bool → ℕ → AccessManager × ℕ
unfolding stale_ids remove_all
cleanup_expired_trackers am existing now =
    let stale = stale_ids am.access_trackers existing in
    (
      record am { access_trackers = remove_all am.access_trackers stale; last_cleanup_time = now },
      length stale,
    )

unfoldable pub should_run_cleanup : AccessManager → ℕ → Bool
should_run_cleanup am now = leb (am.last_cleanup_time + am.cleanup_interval) now

unfoldable pub set_cleanup_interval : AccessManager → ℕ → AccessManager
set_cleanup_interval am d = record am { cleanup_interval = d }
