-- ===== src/Storage/Badger.antt =====
-- What pkg/storage uses of BadgerDB and of encoding/json, which the repository does not hold.
-- Operations are parameters; `IsBadger` states what BadgerDB documents of them.
use content_storage_server.Prelude.{◌≡◌, Option, none, some, List, Bytes, str_eq, if◌then◌else◌}
use content_storage_server.Models.Content.{Content}
use content_storage_server.Storage.Error.{DbError, Result}

-- txn.Get: a value, ErrKeyNotFound, or another error.
pub data Lookup : Type 0 where
  found : Bytes → Lookup
  missing : Lookup
  failed : DbError → Lookup

-- An entry under an iterator; reading its value may fail.
pub record Item : Type 0 where
  pub key : Bytes
  pub value : Result Bytes

-- `D` is the state of the database, with all that its answers depend on; `B` is a WriteBatch.
pub record Badger (D B : Type 0) : Type 0 where
  pub read : D → Bytes → Lookup
  pub scan : D → Result (List Item)
  pub new_write_batch : D → B
  pub set : B → Bytes → Bytes → B × Option DbError
  pub flush : D → B → D × Option DbError
  pub delete : D → Bytes → D × Option DbError

-- json.Marshal and json.Unmarshal of a content; `none` is an error.
pub record Codec : Type 0 where
  pub marshal : Content → Option Bytes
  pub unmarshal : Bytes → Option Content

abbrev pub overlay : Option Bytes → Lookup → Lookup
overlay none r = r
overlay (some v) r = found v

-- `writes w k` is what batch `w` is going to write at key `k`.
pub record IsBadger {D B : Type 0} (b : Badger D B) : Type 0 where
  pub writes : B → Bytes → Option Bytes
  pub writes-new : (d : D) (k : Bytes) → writes (b.new_write_batch d) k ≡ none
  pub writes-set :
      (w : B) (k v : Bytes)
      → (b.set w k v).1 ≡ none
      → (j : Bytes) → writes (b.set w k v).0 j ≡ (if str_eq k j then some v else writes w j)
  pub writes-set_failed :
      (w : B) (k v : Bytes) (e : DbError)
      → (b.set w k v).1 ≡ some e
      → (j : Bytes) → writes (b.set w k v).0 j ≡ writes w j
  pub read-flush :
      (d : D) (w : B)
      → (b.flush d w).1 ≡ none
      → (k : Bytes) → b.read (b.flush d w).0 k ≡ overlay (writes w k) (b.read d k)
  pub read-delete :
      (d : D) (k : Bytes)
      → (b.delete d k).1 ≡ none
      → (j : Bytes) → b.read (b.delete d k).0 j ≡ (if str_eq k j then missing else b.read d j)
  pub read-delete_failed :
      (d : D) (k : Bytes) (e : DbError)
      → (b.delete d k).1 ≡ some e
      → (j : Bytes) → b.read (b.delete d k).0 j ≡ b.read d j
