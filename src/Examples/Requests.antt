-- ===== src/Examples/Requests.antt =====
-- Requests that pass the validation.
use content_storage_server.Prelude.{
  ◌≢◌, [], All, contains, has_prefix, has_suffix, bytes, length, false, ◌≡◌, ◌↔◌, refl, true, false,
  none, some, [], Bytes, bytes, has_prefix, has_suffix, contains, length,
}
use content_storage_server.Prelude.Int64.{slt}
use content_storage_server.Models.Content.{StorageRequest}
use content_storage_server.Handlers.Validation.Utf8.{run_utf8, next_byte, first_byte, valid_utf8}
use content_storage_server.Handlers.Validation.{
  Limits, id_char, all_chars, dangerous, validate_id, validate_access_limit,
}
use content_storage_server.Handlers.Validation.Accepts.{IsIdChar, validate_id_iff}
use content_storage_server.Handlers.Validation.Request.{
  RequestLimits, validate_storage_request, validate_fast,
}
use content_storage_server.Handlers.Validation.Modes.{
  IsStorable, validate_storage_request-IsStorable,
}

abbrev usual : Limits
usual = record {
  max_id_length = 255;
  max_type_length = 100;
  max_access_limit = 1000000;
  max_pagination_limit = 1000;
}

abbrev note_id : Bytes
note_id = bytes "note-1.v2"

validate_id_example : (validate_id usual note_id ≡ none) ↔ (
    (note_id ≢ [])
    × (slt usual.max_id_length (length note_id) ≡ false)
    × All IsIdChar note_id
    × (contains note_id (bytes "..") ≡ false)
    × (has_prefix note_id (bytes ".") ≡ false)
    × (has_suffix note_id (bytes ".") ≡ false))
validate_id_example = validate_id_iff usual note_id

abbrev fast_limits : RequestLimits
fast_limits = record {
  limits = usual;
  max_content_size = 1048576;
  allowed_content_types = [];
  performance_mode = true;
}

abbrev note : StorageRequest
note = record {
  id = note_id;
  payload = bytes "hello";
  content_type = bytes "text/plain";
  tag = [];
  expires_at = some 90;
  access_limit = some 3;
}

note_valid : validate_storage_request (λ s. true) (λ r. true) fast_limits 50 1000 note ≡ none
unfolding validate_storage_request validate_fast validate_access_limit validate_id all_chars id_char
    dangerous contains has_prefix has_suffix valid_utf8 run_utf8 next_byte first_byte
note_valid = refl

validate_storage_request_example : IsStorable fast_limits 50 note
validate_storage_request_example =
    validate_storage_request-IsStorable (λ s. true) (λ r. true) fast_limits 50 1000 note note_valid
