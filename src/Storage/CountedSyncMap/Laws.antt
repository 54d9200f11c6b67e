-- ===== src/Storage/CountedSyncMap/Laws.antt =====
-- The count of pkg/storage/CountedSyncMap.go is the number of entries, whatever the operations.
use content_storage_server.Prelude.{
  ◌%◌, ◌<◌, ap, nil_of_length, ◌≡◌, refl, ◌↔◌, true, none, some, [], arith, Bytes, if◌then◌else◌,
  length, str_eq, str_eq_iff,
}
use content_storage_server.Prelude.Assoc
use content_storage_server.Prelude.Assoc.{
  Assoc, IsMap, get-put, get-remove, put-IsMap, remove-IsMap, length-put, length-remove,
}
use content_storage_server.Storage.CountedSyncMap.Defs.{
  CountedSyncMap, new, store, load, load_or_store, load_and_delete, is_empty,
}

module _ {ℓ} {V : Type ℓ} where
  -- The keys are distinct, and the count is their number modulo 2 ^ 64.
  pub record IsCounted (m : CountedSyncMap V) : Type ℓ where
    pub is_map : IsMap m.items
    pub counted : m.total ≡ length m.items % 18446744073709551616

  pub new-IsCounted : IsCounted new
  unfolding new
  new-IsCounted = record { is_map = tt; counted = refl }

  -- A store keeps the keys distinct and the count right modulo 2 ^ 64, whether the key is new or
  -- not.
  pub store-IsCounted :
      (m : CountedSyncMap V) (k : Bytes) (v : V) → IsCounted m → IsCounted (store m k v).0
  unfolding store
  store-IsCounted m k v h = ground (arith, put-IsMap m.items k v h.is_map, length-put m.items k v)

  pub load_or_store-IsCounted :
      (m : CountedSyncMap V) (k : Bytes) (v : V) → IsCounted m → IsCounted (load_or_store m k v).0
  unfolding load_or_store Assoc.has
  load_or_store-IsCounted m k v h =
      ground (arith, put-IsMap m.items k v h.is_map, length-put m.items k v)

  -- A removal keeps the keys distinct and the count right modulo 2 ^ 64, whether the key is there
  -- or not.
  pub load_and_delete-IsCounted :
      (m : CountedSyncMap V) (k : Bytes) → IsCounted m → IsCounted (load_and_delete m k).0
  unfolding load_and_delete Assoc.has
  load_and_delete-IsCounted m k h =
      ground (arith, remove-IsMap m.items k h.is_map, length-remove m.items k h.is_map)

  pub load-store :
      (m : CountedSyncMap V) (k j : Bytes) (v : V)
      → load (store m k v).0 j ≡ (if str_eq k j then some v else load m j)
  unfolding load store
  load-store m k j v = ground (arith, get-put m.items k j v)

  pub load-load_and_delete :
      (m : CountedSyncMap V) (k j : Bytes)
      → load (load_and_delete m k).0 j ≡ (if str_eq k j then none else load m j)
  unfolding load load_and_delete
  load-load_and_delete m k j = ground (arith, get-remove m.items k j, str_eq_iff k j)

  pub load-new : (k : Bytes) → load (new {V = V}) k ≡ none
  unfolding load new Assoc.get
  load-new k = refl

  empty_of_count :
      (m : CountedSyncMap V)
      → IsCounted m
      → length m.items < 18446744073709551616
      → is_empty m ≡ true
      → m.items ≡ []
  unfolding is_empty
  empty_of_count m h small e = nil_of_length m.items (ground (arith, h.counted))

  none_of_empty : (m : CountedSyncMap V) (k : Bytes) → m.items ≡ [] → load m k ≡ none
  unfolding load Assoc.get
  none_of_empty m k e = rw e

  count_of_none :
      (m : CountedSyncMap V)
      → IsCounted m
      → length m.items < 18446744073709551616
      → ((k : Bytes) → load m k ≡ none)
      → is_empty m ≡ true
  unfolding is_empty load
  count_of_none m h small f = ground (arith, h.counted, ap length (Assoc.nil_of_get m.items f))

  -- On a map with distinct keys and a right count, with fewer than 2 ^ 64 entries, the count is
  -- zero exactly when no key is there.
  pub is_empty_iff :
      (m : CountedSyncMap V)
      → IsCounted m
      → length m.items < 18446744073709551616
      → (is_empty m ≡ true) ↔ ((k : Bytes) → load m k ≡ none)
  is_empty_iff m h small =
      ((λ e k. none_of_empty m k (empty_of_count m h small e)), (λ f. count_of_none m h small f))
