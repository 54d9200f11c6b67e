-- ===== src/Handlers/Validation/Accepts.antt =====
-- What internal/handlers/validation.go lets through.
use content_storage_server.Prelude.{
  ℕ, ◌≡◌, ◌↔◌, refl, sym, ap, ◌∙◌, true, false, ◌||◌, Option, none, some, [], ◌∷◌, arith, Bytes,
  bytes, is_empty, has_prefix, has_suffix, contains, All, ◌≢◌, ◌⊎◌, ◌≤◌, length, ltb, Option-cases,
  inl, inr,
}
use content_storage_server.Prelude.Int64.{Int64, slt, sle}
use content_storage_server.Storage.Listing.{ContentFilter}
use content_storage_server.Handlers.Validation.Utf8.{
  ready, first_byte, next_byte, run_utf8, valid_utf8,
}
use content_storage_server.Handlers.Validation.{
  Limits, Checked, accepted, refused, id_char, all_chars, dangerous, validate_id, validate_tag,
  checked_limit, parse_limit, checked_offset, parse_offset, validate_pagination_params, ◌and_then◌,
  parse_type_filter, parse_tag_filter, parse_time_filter, filter_after_format, filter_before_format,
  parse_include_expired, reversed, check_range, parse_content_filter,
}

id_char-ascii : (x : ℕ) → id_char x ≡ true → ltb x 128 ≡ true
unfolding id_char
id_char-ascii x h = ground arith

ascii_step : (x : ℕ) → ltb x 128 ≡ true → next_byte 0 128 191 x ≡ some ready
unfolding next_byte first_byte
ascii_step x h = rw (h, next_byte)

run_utf8-ready : (s : Bytes) → all_chars id_char s ≡ true → run_utf8 (some ready) s ≡ true
unfolding run_utf8 all_chars
run_utf8-ready [] h = refl
run_utf8-ready (x ∷ s) h =
    let chars : (id_char x ≡ true) × (all_chars id_char s ≡ true) = ground (arith, h) in
    ap (λ u. run_utf8 u s) (ascii_step x (id_char-ascii x chars.0)) ∙ run_utf8-ready s chars.1

-- What the pattern of identifiers lets through is valid UTF-8.
valid_utf8_id : (s : Bytes) → all_chars id_char s ≡ true → valid_utf8 s ≡ true
unfolding valid_utf8
valid_utf8_id s h = run_utf8-ready s h

validate_id_parts :
    (v : Limits) (id : Bytes)
    → (validate_id v id ≡ none) ↔ (
        (is_empty id ≡ false)
        × (slt v.max_id_length (length id) ≡ false)
        × (all_chars id_char id ≡ true)
        × (dangerous id ≡ false))
unfolding validate_id
validate_id_parts v id = ((λ h. ground arith), (λ h. ground (arith, valid_utf8_id id)))

-- A digit, a letter, '.', '_' or '-'.
abbrev pub IsIdChar : ℕ → Type 0
IsIdChar x =
    ((48 ≤ x) × (x ≤ 57))
    ⊎ ((65 ≤ x) × (x ≤ 90))
    ⊎ ((97 ≤ x) × (x ≤ 122))
    ⊎ (x ≡ 46)
    ⊎ (x ≡ 95)
    ⊎ (x ≡ 45)

id_char_iff : (x : ℕ) → (id_char x ≡ true) ↔ IsIdChar x
unfolding id_char
id_char_iff x = (λ h. ground (arith, h), λ h. ground (arith, h))

id_chars_iff : (s : Bytes) → (all_chars id_char s ≡ true) ↔ All IsIdChar s
unfolding all_chars
id_chars_iff [] = (λ h. tt, λ h. refl)
id_chars_iff (x ∷ s) = (
  λ h.
      let (c, rest) : (id_char x ≡ true) × (all_chars id_char s ≡ true) = ground (arith, h) in
      ((id_char_iff x).0 c, (id_chars_iff s).0 rest),
  λ h. ground (arith, (id_char_iff x).1 h.0, (id_chars_iff s).1 h.1),
)

dangerous_iff :
    (s : Bytes)
    → (dangerous s ≡ false) ↔ (
        (contains s (bytes "..") ≡ false)
        × (has_prefix s (bytes ".") ≡ false)
        × (has_suffix s (bytes ".") ≡ false))
unfolding dangerous
dangerous_iff s = (λ h. ground (arith, h), λ h. ground (arith, h))

not_empty_iff : (s : Bytes) → (is_empty s ≡ false) ↔ (s ≢ [])
not_empty_iff [] = ground arith
not_empty_iff (x ∷ s) = ground arith

-- An identifier is accepted exactly if it is not empty, not longer than the maximum as a signed
-- number, made of ASCII letters, digits, dots, underscores and dashes only, and has no dot at
-- either end nor two in a row.
pub validate_id_iff :
    (v : Limits) (id : Bytes)
    → (validate_id v id ≡ none) ↔ (
        (id ≢ [])
        × (slt v.max_id_length (length id) ≡ false)
        × All IsIdChar id
        × (contains id (bytes "..") ≡ false)
        × (has_prefix id (bytes ".") ≡ false)
        × (has_suffix id (bytes ".") ≡ false))
validate_id_iff v id = (
  λ h.
      let (e, l, chars, d) = (validate_id_parts v id).0 h in
      let (dots, start, end) = (dangerous_iff id).0 d in
      ((not_empty_iff id).0 e, l, (id_chars_iff id).0 chars, dots, start, end),
  λ (e, l, chars, dots, start, end). (validate_id_parts v id).1 (
    (not_empty_iff id).1 e,
    l,
    (id_chars_iff id).1 chars,
    (dangerous_iff id).1 (dots, start, end),
  ),
)

no_slash : (s : Bytes) → all_chars id_char s ≡ true → contains s (bytes "/") ≡ false
unfolding all_chars contains has_prefix id_char
no_slash [] h = refl
no_slash (x ∷ s) h = ground (arith, no_slash s)

dangerous_dots : (s : Bytes) → dangerous s ≡ false → contains s (bytes "..") ≡ false
unfolding dangerous
dangerous_dots s h = ground arith

-- No accepted identifier has a slash, or two dots in a row.
pub validate_id-safe :
    (v : Limits) (id : Bytes)
    → validate_id v id ≡ none
    → (contains id (bytes "/") ≡ false) × (contains id (bytes "..") ≡ false)
validate_id-safe v id h =
    let (e, l, chars, d) = (validate_id_parts v id).0 h in (no_slash id chars, dangerous_dots id d)

parse_limit_lem :
    (v : Limits) (s : Bytes) (l : Int64)
    → parse_limit v s ≡ accepted l
    → (sle l 0 ≡ false) × ((is_empty s || sle l v.max_pagination_limit) ≡ true)
unfolding parse_limit checked_limit
parse_limit_lem v s l h = ground (arith, h)

parse_offset_lem : (s : Bytes) (o : Int64) → parse_offset s ≡ accepted o → slt o 0 ≡ false
unfolding parse_offset checked_offset
parse_offset_lem s o h = ground (arith, h)

-- Accepted page parameters are none that `ListWithFilter` refuses: the limit is positive, and within
-- the configured maximum if it was given, and the offset is not negative.
pub validate_pagination_params_lem :
    (v : Limits) (limit_str offset_str : Bytes) (l o : Int64)
    → validate_pagination_params v limit_str offset_str ≡ accepted (l, o)
    → (sle l 0 ≡ false)
      × ((is_empty limit_str || sle l v.max_pagination_limit) ≡ true)
      × (slt o 0 ≡ false)
unfolding validate_pagination_params
validate_pagination_params_lem v limit_str offset_str l o h =
    ground (arith, h, parse_limit_lem v limit_str l, parse_offset_lem offset_str o)

type_filter_lem :
    (s t : Bytes) → parse_type_filter s ≡ accepted t → (is_empty t || contains t (bytes "/")) ≡ true
unfolding parse_type_filter
type_filter_lem s t h = ground (arith, h)

tag_filter_lem :
    (v : Limits) (s t : Bytes) → parse_tag_filter v s ≡ accepted t → validate_tag v t ≡ none
unfolding parse_tag_filter
tag_filter_lem v s t h = elim (Option-cases (validate_tag v s)) [
  | inl e ↦ ground (arith, e, h)
  | inr (r, e) ↦ ground (arith, e, h)
]

range_lem :
    (f g : ContentFilter)
    → check_range f ≡ accepted g
    → (f ≡ g) × (reversed f.created_after f.created_before ≡ false)
unfolding check_range
range_lem f g h = ground (arith, h)

-- What follows an accepted value.
bind_lem {ℓ κ} :
    {A : Type ℓ} {B : Type κ} (x : Checked A) (f : A → Checked B) (y : B)
    → (x and_then f) ≡ accepted y
    → (a : A) × (x ≡ accepted a) × (f a ≡ accepted y)
bind_lem (accepted a) f y h = (a, refl, h)
bind_lem (refused r) f y h = absurd (cc h)

-- An accepted filter has a type with a slash or none, a valid tag or none, and no range of creation
-- times that ends before it begins.
pub parse_content_filter_lem :
    (parse_rfc3339 : Bytes → Option ℕ) (v : Limits) (params : Bytes → Bytes) (f : ContentFilter)
    → parse_content_filter parse_rfc3339 v params ≡ accepted f
    → ((is_empty f.content_type || contains f.content_type (bytes "/")) ≡ true)
      × (validate_tag v f.tag ≡ none)
      × (reversed f.created_after f.created_before ≡ false)
unfolding parse_content_filter
parse_content_filter_lem p v params f h =
    let (type, e1, h1) = bind_lem (parse_type_filter (params (bytes "type"))) _ f h in
    let (tag, e2, h2) = bind_lem (parse_tag_filter v (params (bytes "tag"))) _ f h1 in
    let (after, e3, h3) =
      bind_lem (parse_time_filter p filter_after_format (params (bytes "created_after"))) _ f h2 in
    let (before, e4, h4) =
      bind_lem (parse_time_filter p filter_before_format (params (bytes "created_before"))) _ f
        h3 in
    let (expired, e5, h5) =
      bind_lem (parse_include_expired (params (bytes "include_expired"))) _ f h4 in
    let parsed : ContentFilter = record {
      content_type = type;
      tag = tag;
      created_after = after;
      created_before = before;
      include_expired = expired;
    } in
    let (same, range) = range_lem parsed f h5 in
    (
      ap (λ (g : ContentFilter). is_empty g.content_type || contains g.content_type (bytes "/"))
            (sym same)
          ∙ type_filter_lem (params (bytes "type")) type e1,
      ap (λ (g : ContentFilter). validate_tag v g.tag) (sym same)
          ∙ tag_filter_lem v (params (bytes "tag")) tag e2,
      ap (λ (g : ContentFilter). reversed g.created_after g.created_before) (sym same) ∙ range,
    )
