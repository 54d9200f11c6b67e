-- ===== src/Handlers/Validation/Request.antt =====
-- `ValidateData` and `ValidateStorageRequest` of internal/handlers/validation.go. The struct validator
-- (go-playground/validator) and encoding/json are parameters.
use content_storage_server.Prelude.{
  ℕ, Bool, true, false, not, ◌&&◌, ◌||◌, Option, none, some, List, [], ◌∷◌, Bytes, bytes, str_eq,
  is_empty, is_nil, has_prefix, length, ltb, if◌then◌else◌,
}
use content_storage_server.Prelude.Int64.{Int64, slt}
use content_storage_server.Models.Content.{StorageRequest}
use content_storage_server.Handlers.Validation.Utf8.{valid_utf8}
use content_storage_server.Handlers.Validation.{
  Limits, Refusal, validate_id, validate_content_type, validate_tag, validate_access_limit,
  validate_expiration_time,
}

-- The dynamic type of the data; `other` holds its JSON, or none if it has none.
pub data Payload : Type 0 where
  nil : Payload
  text : Bytes → Payload
  binary : Bytes → Payload
  other : Option Bytes → Payload

pub data DataRefusal : Type 0 where
  data_required data_empty data_size_unknown data_too_large : DataRefusal
  not_a_string not_utf8 not_json not_serializable data_nil : DataRefusal

pub data RequestRefusal : Type 0 where
  struct_invalid data_too_large_for_struct type_not_allowed expired_already : RequestRefusal
  by_field : Refusal → RequestRefusal
  by_data : DataRefusal → RequestRefusal

pub record RequestLimits : Type 0 where
  pub limits : Limits
  pub max_content_size : Int64
  pub allowed_content_types : List Bytes
  pub performance_mode : Bool

-- none if the data has no JSON.
unfoldable pub calculate_data_size : Payload → Option ℕ
calculate_data_size nil = some 0
calculate_data_size (text s) = some (length s)
calculate_data_size (binary s) = some (length s)
calculate_data_size (other none) = none
calculate_data_size (other (some s)) = some (length s)

unfoldable pub validate_text_data : Payload → Option DataRefusal
validate_text_data (text s) = if valid_utf8 s then none else some not_utf8
validate_text_data _ = some not_a_string

unfoldable pub validate_binary_data : Payload → Option DataRefusal
validate_binary_data (other none) = some not_serializable
validate_binary_data _ = none

unfoldable pub validate_untyped_data : Payload → Option DataRefusal
validate_untyped_data nil = some data_nil
validate_untyped_data _ = none

unfoldable pub is_empty_text : Payload → Bool
is_empty_text (text s) = is_empty s
is_empty_text _ = false

unfoldable pub is_nil_data : Payload → Bool
is_nil_data nil = true
is_nil_data _ = false

unfoldable pub includes : List Bytes → Bytes → Bool
includes [] k = false
includes (i ∷ is) k = str_eq k i || includes is k

-- The first refusal of the two.
infixl 40 ◌orelse◌
abbrev pub ◌orelse◌ {ℓ} : {A : Type ℓ} → Option A → Option A → Option A
some a orelse r = some a
none orelse r = r

abbrev pub by_field_of : Option Refusal → Option RequestRefusal
by_field_of none = none
by_field_of (some r) = some (by_field r)

abbrev pub by_data_of : Option DataRefusal → Option RequestRefusal
by_data_of none = none
by_data_of (some r) = some (by_data r)

-- Whether `t` is given and before `now`.
abbrev pub is_past : ℕ → Option ℕ → Bool
is_past now none = false
is_past now (some t) = ltb t now

module _ (json_valid : Bytes → Bool) where
  unfoldable pub validate_json_data : Payload → Option DataRefusal
  validate_json_data (text s) = if json_valid s then none else some not_json
  validate_json_data _ = some not_a_string

  unfoldable pub validate_data_by_type : Payload → Bytes → Option DataRefusal
  unfolding validate_json_data validate_text_data validate_binary_data validate_untyped_data
  validate_data_by_type d type =
      if has_prefix type (bytes "text/")
      then validate_text_data d
      else if has_prefix type (bytes "application/json")
      then validate_json_data d
      else if has_prefix type (bytes "application/")
      then validate_binary_data d
      else validate_untyped_data d

  unfoldable pub validate_data : Int64 → Payload → Bytes → Option DataRefusal
  unfolding calculate_data_size is_nil_data is_empty_text
  validate_data max_size d type =
      if is_nil_data d
      then some data_required
      else if is_empty_text d
      then some data_empty
      else (elim (calculate_data_size d) [
        | none ↦ some data_size_unknown
        | some n ↦ if slt max_size n then some data_too_large else validate_data_by_type d type
      ])

  -- The path of the performance mode.
  unfoldable pub validate_fast :
      (StorageRequest → Bool) → RequestLimits → ℕ → StorageRequest → Option RequestRefusal
  validate_fast struct_valid v now r =
      (if struct_valid r then none else some struct_invalid)
      orelse by_field_of (validate_id v.limits r.id)
      orelse (if slt v.max_content_size (length r.payload)
          then some data_too_large_for_struct
          else none)
      orelse (if is_past now r.expires_at then some expired_already else none)
      orelse (if not (is_nil v.allowed_content_types)
            && not (includes v.allowed_content_types r.content_type)
          then some type_not_allowed
          else none)
      orelse by_field_of (validate_access_limit v.limits r.access_limit)

  unfoldable pub validate_full : RequestLimits → ℕ → ℕ → StorageRequest → Option RequestRefusal
  validate_full v now farthest r =
      by_field_of (validate_id v.limits r.id)
      orelse by_field_of (validate_content_type v.limits r.content_type)
      orelse by_field_of (if is_empty r.tag then none else validate_tag v.limits r.tag)
      orelse by_data_of (validate_data v.max_content_size (text r.payload) r.content_type)
      orelse by_field_of (validate_access_limit v.limits r.access_limit)
      orelse by_field_of (validate_expiration_time now farthest r.expires_at)

  unfoldable pub validate_storage_request :
      (StorageRequest → Bool) → RequestLimits → ℕ → ℕ → StorageRequest → Option RequestRefusal
  unfolding validate_fast validate_full
  validate_storage_request struct_valid v now farthest r =
      if v.performance_mode
      then validate_fast struct_valid v now r
      else validate_full v now farthest r
