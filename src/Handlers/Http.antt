-- ===== src/Handlers/Http.antt =====
-- What a handler of internal/handlers answers: the status, and `models.StorageResponse` with its data.
-- An error text in the data is the error it is made of.
use content_storage_server.Prelude.{ℕ, Bool, List, Bytes}
use content_storage_server.Prelude.Int64.{Int64}
use content_storage_server.Prelude.Assoc.{Assoc}
use content_storage_server.Models.Content.{ContentWithAccess}
use content_storage_server.Storage.Error.{Error}
use content_storage_server.Handlers.Validation.{Refusal}
use content_storage_server.Handlers.Validation.Request.{RequestRefusal}

-- What a delete with retries fails with.
pub data DeleteFailure : Type 0 where
  by_storage : Error → DeleteFailure
  attempts_exhausted : DeleteFailure

pub data Body : Type 0 where
  bind_error : Bytes → Body
  refusal : Refusal → Body
  request_refusal : RequestRefusal → Body
  type_not_allowed : Bytes → Body
  storage_error : Error → Body
  delete_error : DeleteFailure → Body
  safe_text : Bytes → Body
  id_status : Bytes → Bytes → Body
  deleted : Bytes → Body
  retrieved : ContentWithAccess → Body
  listed : List ContentWithAccess → ℕ → Int64 → Int64 → Assoc Bytes → Body
  counted : ℕ → Body
  shutting_down : Bytes → Bytes → Body

pub record Response : Type 0 where
  pub status : ℕ
  pub success : Bool
  pub message : Bytes
  pub body : Body
