-- ===== src/Storage/Access/Laws.antt =====
-- The counts of pkg/storage/access_manager.go under its operations.
use content_storage_server.Prelude.{
  ℕ, ◌≡◌, refl, ap, Bool, false, none, List, [], ◌∷◌, arith, Bytes, str_eq, str_eq_iff, str_eq_refl,
  if◌then◌else◌, ◌||◌,
}
use content_storage_server.Prelude.Int64.{Int64, add}
use content_storage_server.Prelude.Assoc
use content_storage_server.Prelude.Assoc.{Assoc, IsMap, get-put, get-remove}
use content_storage_server.Models.Content.{AccessTracker, increment_access_count}
use content_storage_server.Storage.Access.{
  AccessManager, in_set, tracker_of, increment_access, get_access_count, set_access_count,
  remove_access, stale_ids, remove_all, cleanup_expired_trackers,
}

-- One access is counted, for its key only, and the new count is returned.
pub increment_access_lem :
    (am : AccessManager) (k j : Bytes)
    → (get_access_count (increment_access am k).0 j
        ≡ (if str_eq k j then add (get_access_count am k) 1 else get_access_count am j))
      × ((increment_access am k).1 ≡ get_access_count (increment_access am k).0 k)
unfolding increment_access get_access_count increment_access_count tracker_of
increment_access_lem am k j =
    let t = increment_access_count (tracker_of am.access_trackers k) in
    ground
      (arith, get-put am.access_trackers k j t, get-put am.access_trackers k k t, str_eq_refl k)

pub get-set_access_count :
    (am : AccessManager) (k j : Bytes) (n : Int64)
    → get_access_count (set_access_count am k n) j
      ≡ (if str_eq k j then n else get_access_count am j)
unfolding set_access_count get_access_count
get-set_access_count am k j n = ground (
  arith,
  get-put am.access_trackers k j (record (tracker_of am.access_trackers k) { access_count = n }),
)

pub get-remove_access :
    (am : AccessManager) (k j : Bytes)
    → get_access_count (remove_access am k) j ≡ (if str_eq k j then 0 else get_access_count am j)
unfolding remove_access get_access_count
get-remove_access am k j = ground (arith, get-remove am.access_trackers k j)

abbrev lists : List Bytes → Bytes → Bool
lists [] k = false
lists (i ∷ is) k = str_eq i k || lists is k

get-remove_all :
    (ks : List Bytes) (m : Assoc AccessTracker) (k : Bytes)
    → Assoc.get (remove_all m ks) k ≡ (if lists ks k then none else Assoc.get m k)
unfolding remove_all
get-remove_all [] m k = refl
get-remove_all (i ∷ is) m k =
    ground (arith, get-remove_all is (Assoc.remove m i) k, get-remove m i k, str_eq_iff i k)

-- Whether a key is stale: tracked, and not among the existing ones.
stale_ids_lem :
    (m : Assoc AccessTracker) (existing : Assoc Bool) (k : Bytes)
    → lists (stale_ids m existing) k ≡ (if in_set existing k then false else Assoc.has m k)
unfolding stale_ids Assoc.has Assoc.get
stale_ids_lem [] existing k = ground arith
stale_ids_lem ((i, t) ∷ m) existing k =
    ground (arith, stale_ids_lem m existing k, str_eq_iff i k, same_get existing i k)
  where
    same_get : (e : Assoc Bool) (i k : Bytes) → i ≡ k → Assoc.get e i ≡ Assoc.get e k
    same_get e i k h = ap (Assoc.get e) h

-- A cleanup forgets the count of every key that does not exist any more, and keeps all others.
pub cleanup_lem :
    (am : AccessManager) (existing : Assoc Bool) (now : ℕ) (k : Bytes)
    → get_access_count (cleanup_expired_trackers am existing now).0 k
      ≡ (if in_set existing k then get_access_count am k else 0)
unfolding cleanup_expired_trackers get_access_count Assoc.has
cleanup_lem am existing now k = ground (
  arith,
  get-remove_all (stale_ids am.access_trackers existing) am.access_trackers k,
  stale_ids_lem am.access_trackers existing k,
)
