-- ===== src/Storage/Error.antt =====
-- The errors of pkg/storage (storage.go, queue.go), one constructor for each message. An error that
-- wraps another carries it.
pub mod Message
use content_storage_server.Prelude.{◌≡◌, refl, ◌⊎◌, inl, inr, Bytes}
use content_storage_server.Prelude.Int64.{Int64}

-- What BadgerDB returns: its ErrConflict, or an error with the text of `Error()`.
pub data DbError : Type 0 where
  conflict : DbError
  other : Bytes → DbError

pub data Error : Type 0 where
  content_not_found content_expired access_limit_reached storage_not_ready : Error
  marshal_content add_to_batch flush_batch write_operation_timeout : Error
  shutting_down : Error
  at_maximum_capacity : Int64 → Error
  queue_full : Int64 → Error → Error
  still_full : Int64 → Error
  flush_incomplete : Int64 → Error
  pending_write delete_pending_write : Bytes → Error → Error
  wait_timeout : Bytes → Error
  unmarshal_failed : Error
  limit_not_positive offset_negative : Error
  database : DbError → Error

pub data Result {ℓ} (A : Type ℓ) : Type ℓ where
  ok : A → Result A
  err : Error → Result A

infixl 5 ◌>>=◌
abbrev pub ◌>>=◌ {ℓ κ} : {A : Type ℓ} {B : Type κ} → Result A → (A → Result B) → Result B
ok a >>= f = f a
err e >>= f = err e

pub Result-cases {ℓ} :
    {A : Type ℓ} (r : Result A) → ((a : A) × (r ≡ ok a)) ⊎ ((e : Error) × (r ≡ err e))
Result-cases (ok a) = inl (a, refl)
Result-cases (err e) = inr (e, refl)
