-- ===== src/Storage/CountedSyncMap/Defs.antt =====
-- The operations of pkg/storage/CountedSyncMap.go. Each returns the map with its result.
use content_storage_server.Prelude.{
  Bool, true, false, Option, none, some, [], Bytes, ◌==◌, if◌then◌else◌,
}
use content_storage_server.Prelude.Int64.{Int64, add, minus_one}
use content_storage_server.Prelude.Assoc
use content_storage_server.Prelude.Assoc.{Assoc}

pub record CountedSyncMap {ℓ} (V : Type ℓ) : Type ℓ where
  pub items : Assoc V
  pub total : Int64

module _ {ℓ} {V : Type ℓ} where
  unfoldable pub new : CountedSyncMap V
  new = record { items = []; total = 0 }

  -- True if the key is new.
  unfoldable pub store : CountedSyncMap V → Bytes → V → CountedSyncMap V × Bool
  store m k v =
      if Assoc.has m.items k
      then (record m { items = Assoc.put m.items k v }, false)
      else (record { items = Assoc.put m.items k v; total = add m.total 1 }, true)

  unfoldable pub load : CountedSyncMap V → Bytes → Option V
  load m k = Assoc.get m.items k

  -- The value that the key has afterwards, and whether it was there before.
  unfoldable pub load_or_store : CountedSyncMap V → Bytes → V → CountedSyncMap V × V × Bool
  load_or_store m k v = elim (Assoc.get m.items k) [
    | some w ↦ (m, w, true)
    | none ↦ (record { items = Assoc.put m.items k v; total = add m.total 1 }, v, false)
  ]

  -- The value removed, if there was one.
  unfoldable pub load_and_delete : CountedSyncMap V → Bytes → CountedSyncMap V × Option V
  load_and_delete m k = elim (Assoc.get m.items k) [
    | some v ↦ (record { items = Assoc.remove m.items k; total = add m.total minus_one }, some v)
    | none ↦ (m, none)
  ]

  unfoldable pub delete : CountedSyncMap V → Bytes → CountedSyncMap V
  unfolding load_and_delete
  delete m k = (load_and_delete m k).0

  -- The entries that an iteration visits.
  unfoldable pub range : CountedSyncMap V → Assoc V
  range m = m.items

  unfoldable pub count : CountedSyncMap V → Int64
  count m = m.total

  unfoldable pub is_empty : CountedSyncMap V → Bool
  is_empty m = m.total == 0
