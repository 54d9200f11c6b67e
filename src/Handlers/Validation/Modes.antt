-- ===== src/Handlers/Validation/Modes.antt =====
-- Both modes of `ValidateStorageRequest` (internal/handlers/validation.go) refuse what must not be
-- stored.
use content_storage_server.Prelude.{
  ℕ, ◌≡◌, refl, sym, ap, ◌∙◌, Bool, true, false, Option, none, some, arith, Bytes, length,
  if◌then◌else◌, Bool-cases, inl, inr,
}
use content_storage_server.Prelude.Int64.{Int64, slt}
use content_storage_server.Models.Content.{StorageRequest}
use content_storage_server.Handlers.Validation.{
  Refusal, validate_id, validate_access_limit, validate_expiration_time,
}
use content_storage_server.Handlers.Validation.Request.{
  text, DataRefusal, RequestLimits, calculate_data_size, is_empty_text, is_nil_data, ◌orelse◌,
  by_field_of, by_data_of, is_past, validate_data, validate_fast, validate_full,
  validate_storage_request,
}

orelse_none {ℓ} : {A : Type ℓ} (x y : Option A) → (x orelse y) ≡ none → (x ≡ none) × (y ≡ none)
orelse_none none y h = (refl, h)
orelse_none (some a) y h = absurd (cc h)

field_none : (x : Option Refusal) → by_field_of x ≡ none → x ≡ none
field_none none h = refl
field_none (some r) h = absurd (cc h)

data_none : (x : Option DataRefusal) → by_data_of x ≡ none → x ≡ none
data_none none h = refl
data_none (some r) h = absurd (cc h)

when_none {ℓ} : {A : Type ℓ} (b : Bool) (a : A) → (if b then some a else none) ≡ none → b ≡ false
when_none true a h = absurd (cc h)
when_none false a h = refl

expiration_none :
    (now farthest : ℕ) (t : Option ℕ)
    → validate_expiration_time now farthest t ≡ none
    → is_past now t ≡ false
unfolding validate_expiration_time
expiration_none now farthest none h = refl
expiration_none now farthest (some t) h = ground arith

-- What is promised of a request that was accepted.
pub record IsStorable (v : RequestLimits) (now : ℕ) (r : StorageRequest) : Type 0 where
  pub id_valid : validate_id v.limits r.id ≡ none
  pub limit_valid : validate_access_limit v.limits r.access_limit ≡ none
  pub size_valid : slt v.max_content_size (length r.payload) ≡ false
  pub not_past : is_past now r.expires_at ≡ false

module _ (json_valid : Bytes → Bool) where
  data_size :
      (max_size : Int64) (s type : Bytes)
      → validate_data json_valid max_size (text s) type ≡ none
      → slt max_size (length s) ≡ false
  unfolding validate_data calculate_data_size is_nil_data is_empty_text
  data_size max_size s type h = ground arith

  fast-IsStorable :
      (struct_valid : StorageRequest → Bool) (v : RequestLimits) (now : ℕ) (r : StorageRequest)
      → validate_fast json_valid struct_valid v now r ≡ none
      → IsStorable v now r
  unfolding validate_fast
  fast-IsStorable struct_valid v now r h =
      let (h1, limit) = orelse_none _ _ h in
      let (h2, types) = orelse_none _ _ h1 in
      let (h3, past) = orelse_none _ _ h2 in
      let (h4, size) = orelse_none _ _ h3 in
      let (h5, id) = orelse_none _ _ h4 in
      record {
        id_valid = field_none (validate_id v.limits r.id) id;
        limit_valid = field_none (validate_access_limit v.limits r.access_limit) limit;
        size_valid = when_none _ _ size;
        not_past = when_none _ _ past;
      }

  full-IsStorable :
      (v : RequestLimits) (now farthest : ℕ) (r : StorageRequest)
      → validate_full json_valid v now farthest r ≡ none
      → IsStorable v now r
  unfolding validate_full
  full-IsStorable v now farthest r h =
      let (h1, expires) = orelse_none _ _ h in
      let (h2, limit) = orelse_none _ _ h1 in
      let (h3, content) = orelse_none _ _ h2 in
      let (h4, tag) = orelse_none _ _ h3 in
      let (id, type) = orelse_none _ _ h4 in
      record {
        id_valid = field_none (validate_id v.limits r.id) id;
        limit_valid = field_none (validate_access_limit v.limits r.access_limit) limit;
        size_valid = data_size v.max_content_size r.payload r.content_type (
            data_none (validate_data json_valid v.max_content_size (text r.payload) r.content_type)
              content);
        not_past =
            expiration_none now farthest r.expires_at
              (field_none (validate_expiration_time now farthest r.expires_at) expires);
      }

  -- In either mode an accepted request has a valid identifier and access limit, data within the
  -- maximal size, and an expiry that is not in the past.
  pub validate_storage_request-IsStorable :
      (struct_valid : StorageRequest → Bool) (v : RequestLimits) (now farthest : ℕ)
      (r : StorageRequest)
      → validate_storage_request json_valid struct_valid v now farthest r ≡ none
      → IsStorable v now r
  unfolding validate_storage_request
  validate_storage_request-IsStorable struct_valid v now farthest r h =
      elim (Bool-cases v.performance_mode) [
        | inl fast ↦ fast-IsStorable struct_valid v now r (
            ap
              (λ b.
                if b
                then validate_fast json_valid struct_valid v now r
                else validate_full json_valid v now farthest r)
              (sym fast)
            ∙ h)
        | inr full ↦ full-IsStorable v now farthest r (
            ap
              (λ b.
                if b
                then validate_fast json_valid struct_valid v now r
                else validate_full json_valid v now farthest r)
              (sym full)
            ∙ h)
      ]
