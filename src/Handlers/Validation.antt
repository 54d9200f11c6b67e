-- ===== src/Handlers/Validation.antt =====
-- internal/handlers/validation.go: identifiers, types, tags, limits, pages and filters of requests.
-- RFC 3339 times (package time) are parsed by a parameter.
pub mod Utf8
pub mod Atoi
pub mod Accepts
pub mod Request
pub mod Modes
use content_storage_server.Prelude.{
  ℕ, Bool, true, false, not, ◌&&◌, ◌||◌, Option, none, some, List, [], ◌∷◌, Bytes, bytes, str_eq,
  is_empty, has_prefix, has_suffix, contains, length, ltb, leb, map, ◌+◌, ◌==◌, if◌then◌else◌,
}
use content_storage_server.Prelude.Int64.{Int64, slt, sle}
use content_storage_server.Storage.Listing.{ContentFilter}
use Utf8.{valid_utf8}
use Atoi.{atoi}

-- The fields of `config.Config` that the validator reads.
pub record Limits : Type 0 where
  pub max_id_length : Int64
  pub max_type_length : Int64
  pub max_access_limit : Int64
  pub max_pagination_limit : Int64

-- Why a request is refused, one constructor for each message.
pub data Refusal : Type 0 where
  id_required id_too_long id_not_utf8 id_characters id_dangerous : Refusal
  type_required type_too_long type_not_utf8 type_characters : Refusal
  tag_too_long tag_not_utf8 tag_characters : Refusal
  access_limit_negative access_limit_too_high : Refusal
  expiration_past expiration_too_far : Refusal
  limit_not_number limit_not_positive limit_too_high offset_not_number offset_negative : Refusal
  filter_type_format filter_after_format filter_before_format filter_expired_value : Refusal
  filter_range : Refusal

-- Upper and lower case letters and digits, and '.', '_' and '-'.
unfoldable pub id_char : ℕ → Bool
id_char x =
    (leb 97 x && leb x 122)
    || (leb 65 x && leb x 90)
    || (leb 48 x && leb x 57)
    || (x == 46)
    || (x == 95)
    || (x == 45)

-- The same and '/'.
unfoldable pub type_char : ℕ → Bool
unfolding id_char
type_char x = id_char x || (x == 47)

unfoldable pub all_chars : (ℕ → Bool) → Bytes → Bool
all_chars p [] = true
all_chars p (x ∷ s) = p x && all_chars p s

-- A match of `^[...]+$`.
abbrev pub matches_class : (ℕ → Bool) → Bytes → Bool
matches_class p s = not (is_empty s) && all_chars p s

unfoldable pub dangerous : Bytes → Bool
dangerous id = contains id (bytes "..") || has_prefix id (bytes ".") || has_suffix id (bytes ".")

unfoldable pub validate_id : Limits → Bytes → Option Refusal
validate_id v id =
    if is_empty id
    then some id_required
    else if slt v.max_id_length (length id)
    then some id_too_long
    else if not (valid_utf8 id)
    then some id_not_utf8
    else if not (matches_class id_char id)
    then some id_characters
    else if dangerous id
    then some id_dangerous
    else none

unfoldable pub validate_content_type : Limits → Bytes → Option Refusal
validate_content_type v s =
    if is_empty s
    then some type_required
    else if slt v.max_type_length (length s)
    then some type_too_long
    else if not (valid_utf8 s)
    then some type_not_utf8
    else if not (matches_class type_char s)
    then some type_characters
    else none

unfoldable pub validate_tag : Limits → Bytes → Option Refusal
validate_tag v tag =
    if is_empty tag
    then none
    else if slt v.max_type_length (length tag)
    then some tag_too_long
    else if not (valid_utf8 tag)
    then some tag_not_utf8
    else if not (matches_class type_char tag)
    then some tag_characters
    else none

unfoldable pub validate_access_limit : Limits → Option Int64 → Option Refusal
validate_access_limit v none = none
validate_access_limit v (some l) =
    if l == 0
    then none
    else if slt l 0
    then some access_limit_negative
    else if slt v.max_access_limit l
    then some access_limit_too_high
    else none

-- `farthest` is the instant ten calendar years from now.
unfoldable pub validate_expiration_time : ℕ → ℕ → Option ℕ → Option Refusal
validate_expiration_time now farthest none = none
validate_expiration_time now farthest (some t) =
    if ltb t now
    then some expiration_past
    else if ltb farthest t
    then some expiration_too_far
    else none

pub data Checked {ℓ} (A : Type ℓ) : Type ℓ where
  accepted : A → Checked A
  refused : Refusal → Checked A

unfoldable pub checked_limit : Limits → Option Int64 → Checked Int64
checked_limit v none = refused limit_not_number
checked_limit v (some l) =
    if sle l 0
    then refused limit_not_positive
    else if slt v.max_pagination_limit l
    then refused limit_too_high
    else accepted l

unfoldable pub parse_limit : Limits → Bytes → Checked Int64
unfolding checked_limit
parse_limit v s = if is_empty s then accepted 100 else checked_limit v (atoi s)

unfoldable pub checked_offset : Option Int64 → Checked Int64
checked_offset none = refused offset_not_number
checked_offset (some o) = if slt o 0 then refused offset_negative else accepted o

unfoldable pub parse_offset : Bytes → Checked Int64
unfolding checked_offset
parse_offset s = if is_empty s then accepted 0 else checked_offset (atoi s)

infixl 5 ◌and_then◌
abbrev pub ◌and_then◌ {ℓ κ} : {A : Type ℓ} {B : Type κ} → Checked A → (A → Checked B) → Checked B
accepted a and_then f = f a
refused r and_then f = refused r

unfoldable pub validate_pagination_params : Limits → Bytes → Bytes → Checked (Int64 × Int64)
unfolding parse_limit parse_offset
validate_pagination_params v limit_str offset_str =
    parse_limit v limit_str and_then (λ l. parse_offset offset_str and_then (λ o. accepted (l, o)))

-- strings.ToLower, up to letters that are not ASCII: none of them has one of "truefalsyno" as its
-- lower case.
abbrev pub to_lower : Bytes → Bytes
to_lower [] = []
to_lower (x ∷ s) = (if leb 65 x && leb x 90 then x + 32 else x) ∷ to_lower s

abbrev one_of : Bytes → Bytes → Bytes → Bytes → Bool
one_of s a b c = str_eq s a || str_eq s b || str_eq s c

unfoldable pub parse_type_filter : Bytes → Checked Bytes
parse_type_filter s =
    if is_empty s
    then accepted []
    else if contains s (bytes "/")
    then accepted s
    else refused filter_type_format

unfoldable pub parse_tag_filter : Limits → Bytes → Checked Bytes
unfolding validate_tag
parse_tag_filter v s = elim (validate_tag v s) [ none ↦ accepted s | some r ↦ refused r ]

unfoldable pub parse_include_expired : Bytes → Checked Bool
parse_include_expired s =
    if is_empty s
    then accepted false
    else if one_of (to_lower s) (bytes "true") (bytes "1") (bytes "yes")
    then accepted true
    else if one_of (to_lower s) (bytes "false") (bytes "0") (bytes "no")
    then accepted false
    else refused filter_expired_value

-- createdAfter.After(createdBefore)
abbrev pub reversed : Option ℕ → Option ℕ → Bool
reversed none b = false
reversed (some a) none = false
reversed (some a) (some b) = ltb b a

unfoldable pub check_range : ContentFilter → Checked ContentFilter
check_range f =
    if reversed f.created_after f.created_before then refused filter_range else accepted f

module _ (parse_rfc3339 : Bytes → Option ℕ) where
  unfoldable pub parse_time_filter : Refusal → Bytes → Checked (Option ℕ)
  parse_time_filter r s =
      if is_empty s
      then accepted none
      else (elim (parse_rfc3339 s) [ none ↦ refused r | some t ↦ accepted (some t) ])

  -- `params` answers the empty string for a key that is missing.
  unfoldable pub parse_content_filter : Limits → (Bytes → Bytes) → Checked ContentFilter
  unfolding parse_type_filter parse_tag_filter parse_time_filter parse_include_expired check_range
  parse_content_filter v params = parse_type_filter (params (bytes "type")) and_then (λ type.
      parse_tag_filter v (params (bytes "tag")) and_then (λ tag.
        parse_time_filter filter_after_format (params (bytes "created_after")) and_then (λ after.
          parse_time_filter filter_before_format (params (bytes "created_before"))
          and_then (λ before.
              parse_include_expired (params (bytes "include_expired")) and_then (λ expired.
                check_range (record {
                  content_type = type;
                  tag = tag;
                  created_after = after;
                  created_before = before;
                  include_expired = expired;
                }))))))
