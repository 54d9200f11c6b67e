-- ===== src/Models/Content.antt =====
-- pkg/models/content.go. An instant is a number of nanoseconds; the clock's reading is an argument.
use content_storage_server.Prelude.{
  ℕ, ◌≤◌, ◌≡◌, Bool, true, false, Option, none, some, arith, Bytes, ltb,
}
use content_storage_server.Prelude.Int64.{Int64, sle, add}

pub record Content : Type 0 where
  pub id : Bytes
  pub payload : Bytes
  pub content_type : Bytes
  pub tag : Bytes
  pub created_at : ℕ
  pub expires_at : Option ℕ
  pub access_limit : Option Int64

pub record AccessTracker : Type 0 where
  pub tracked_id : Bytes
  pub access_count : Int64

-- atomic.AddInt64(&at.AccessCount, 1)
unfoldable pub increment_access_count : AccessTracker → AccessTracker
increment_access_count t = record t { access_count = add t.access_count 1 }

-- `time.Now().After(*c.ExpiresAt)` is a strict comparison.
unfoldable pub is_expired : Content → ℕ → Bool
is_expired c now = elim c.expires_at [ none ↦ false | some t ↦ ltb t now ]

-- accessCount >= int64(*c.AccessLimit)
unfoldable pub is_access_exhausted : Content → Int64 → Bool
is_access_exhausted c count = elim c.access_limit [ none ↦ false | some limit ↦ sle limit count ]

pub record ContentWithAccess : Type 0 where
  pub content : Content
  pub access_count : Int64

pub record StorageRequest : Type 0 where
  pub id : Bytes
  pub payload : Bytes
  pub content_type : Bytes
  pub tag : Bytes
  pub expires_at : Option ℕ
  pub access_limit : Option Int64

-- Once expired, a content stays expired.
pub is_expired_later :
    (c : Content) (now later : ℕ)
    → now ≤ later
    → is_expired c now ≡ true
    → is_expired c later ≡ true
unfolding is_expired
is_expired_later c now later le h = ground arith
