-- ===== src/Storage/Error/Message.antt =====
-- The texts of the errors of pkg/storage: what `Error()` answers. The texts of the errors of BadgerDB
-- and of encoding/json that they wrap are parameters.
use content_storage_server.Prelude.{
  ℕ, zero, suc, ◌+◌, ◌-◌, ◌/◌, ◌%◌, [], ◌∷◌, ◌++◌, Bytes, bytes, ltb, if◌then◌else◌,
}
use content_storage_server.Prelude.Int64.{Int64, slt}
use content_storage_server.Storage.Error.{
  DbError, conflict, other, Error, content_not_found, content_expired, access_limit_reached,
  storage_not_ready, marshal_content, add_to_batch, flush_batch, write_operation_timeout,
  shutting_down, at_maximum_capacity, queue_full, still_full, flush_incomplete, pending_write,
  delete_pending_write, wait_timeout, unmarshal_failed, limit_not_positive, offset_negative,
  database,
}

-- The texts of the wrapped errors.
pub record Texts : Type 0 where
  pub conflict_text : Bytes
  pub unmarshal_text : Bytes

-- The decimal digits of `n`, at most as many as the fuel, before `s`.
abbrev digits_before : ℕ → ℕ → Bytes → Bytes
digits_before zero n s = s
digits_before (suc fuel) n s =
    let rest = digits_before fuel (n / 10) ((48 + n % 10) ∷ s) in
    if ltb n 10 then (48 + n % 10) ∷ s else rest

-- The verb %d on an int: 64 bits have at most 20 decimal digits.
unfoldable pub decimal : Int64 → Bytes
decimal n =
    if slt n 0 then 45 ∷ digits_before 20 (18446744073709551616 - n) [] else digits_before 20 n []

unfoldable pub db_message : Texts → DbError → Bytes
db_message x conflict = x.conflict_text
db_message x (other s) = s

unfoldable pub message : Texts → Error → Bytes
unfolding decimal db_message
message x content_not_found = bytes "content not found"
message x content_expired = bytes "content has expired"
message x access_limit_reached = bytes "content access limit reached"
message x storage_not_ready = bytes "storage not ready"
message x marshal_content = bytes "failed to marshal content"
message x add_to_batch = bytes "failed to add to WriteBatch"
message x flush_batch = bytes "failed to flush WriteBatch"
message x write_operation_timeout = bytes "write operation timed out"
message x shutting_down = bytes "cannot double queue capacity: system is shutting down"
message x (at_maximum_capacity n) =
    bytes "queue at maximum capacity (" ++ decimal n ++ bytes "), cannot double further"
message x (queue_full n e) =
    bytes "write queue is full (capacity: "
    ++ decimal n
    ++ bytes ") and failed to double capacity: "
    ++ message x e
message x (still_full n) =
    bytes "write queue is still full even after doubling capacity to " ++ decimal n
message x (flush_incomplete n) =
    bytes "simple flush incomplete: "
    ++ decimal n
    ++ bytes " items still pending after worker stop and drain"
message x (pending_write k e) =
    bytes "failed to get content " ++ k ++ bytes " due to pending write: " ++ message x e
message x (delete_pending_write k e) =
    bytes "failed to delete content " ++ k ++ bytes " due to pending write: " ++ message x e
message x (wait_timeout k) = bytes "timeout waiting for content " ++ k ++ bytes " write to complete"
message x unmarshal_failed = bytes "failed to unmarshal content: " ++ x.unmarshal_text
message x limit_not_positive = bytes "limit must be positive"
message x offset_negative = bytes "offset must be non-negative"
message x (database e) = db_message x e
