-- ===== src/Handlers/Errors.antt =====
-- internal/handlers/errors.go: which texts clients get to see of an error. The table of safe errors is
-- a Go map, visited in any order: the order is an argument, and so is strings.ToLower.
pub mod Safe
use content_storage_server.Prelude.{
  Bool, ◌&&◌, List, [], ◌∷◌, ◌++◌, Bytes, bytes, str_eq, contains, if◌then◌else◌,
}

unfoldable pub safe_errors : List (Bytes × Bytes)
safe_errors =
    (bytes "content not found", bytes "Content not found")
    ∷ (bytes "content has expired", bytes "Content has expired")
    ∷ (bytes "access limit exceeded", bytes "Access limit exceeded")
    ∷ (bytes "rate limit exceeded", bytes "Rate limit exceeded")
    ∷ (bytes "invalid api key", bytes "Invalid API key")
    ∷ (bytes "invalid id", bytes "Invalid content ID")
    ∷ (bytes "invalid content type", bytes "Invalid content type")
    ∷ (bytes "content size exceeds", bytes "Content size exceeds maximum allowed")
    ∷ (bytes "unauthorized", bytes "Unauthorized")
    ∷ (bytes "forbidden", bytes "Forbidden")
    ∷ (bytes "validation failed", bytes "Validation failed")
    ∷ []

abbrev pub generic_error : Bytes
generic_error = bytes "An internal error occurred"

-- The loop over the table, in the order given, and what follows it.
unfoldable pub match_safe : List (Bytes × Bytes) → Bytes → Bytes
match_safe [] msg =
    if contains msg (bytes "content") && contains msg (bytes "not found")
    then bytes "Content not found"
    else generic_error
match_safe ((pattern_text, shown) ∷ ps) msg =
    let rest = match_safe ps msg in if contains msg pattern_text then shown else rest

pub record Sanitizer : Type 0 where
  pub to_lower : Bytes → Bytes
  pub order : List (Bytes × Bytes)

-- Of an error with the text `text`.
unfoldable pub sanitize_error : Sanitizer → Bytes → Bytes
unfolding match_safe
sanitize_error z text = match_safe z.order (z.to_lower text)

unfoldable pub sanitize_error_with_prefix : Sanitizer → Bytes → Bytes → Bytes
unfolding sanitize_error
sanitize_error_with_prefix z text prefix =
    let sanitized = sanitize_error z text in
    if str_eq sanitized generic_error then prefix ++ bytes ": " ++ sanitized else sanitized
