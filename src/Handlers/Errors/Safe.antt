-- ===== src/Handlers/Errors/Safe.antt =====
-- What internal/handlers/errors.go lets out: whatever the text of an error is, and in whatever order
-- the table is visited, a client reads one of finitely many texts.
use content_storage_server.Prelude.{
  ◌≡◌, refl, ap, ◌∙◌, ◌⊎◌, inl, inr, Bool, true, false, ◌||◌, List, [], ◌∷◌, ◌++◌, arith, Bytes,
  bytes, str_eq, str_eq_iff, if◌then◌else◌, All, Bool-cases,
}
use content_storage_server.Handlers.Errors.{
  Sanitizer, safe_errors, generic_error, match_safe, sanitize_error, sanitize_error_with_prefix,
}

-- Whether `s` is the shown text of an entry of the table.
abbrev pub shows : List (Bytes × Bytes) → Bytes → Bool
shows [] s = false
shows ((p, shown) ∷ ps) s = str_eq shown s || shows ps s

-- The texts that a client may read of an error.
abbrev pub is_safe : Bytes → Bool
is_safe s = shows safe_errors s || str_eq generic_error s

-- Entries of the table only, in some order.
abbrev pub IsTable : List (Bytes × Bytes) → Type 0
IsTable order = All (λ e. shows safe_errors e.1 ≡ true) order

not_found_shown : shows safe_errors (bytes "Content not found") ≡ true
unfolding safe_errors str_eq
not_found_shown = refl

match_safe-IsSafe :
    (order : List (Bytes × Bytes)) (msg : Bytes)
    → IsTable order
    → is_safe (match_safe order msg) ≡ true
unfolding match_safe
match_safe-IsSafe [] msg h = ground (arith, not_found_shown, str_eq_iff generic_error generic_error)
match_safe-IsSafe ((p, shown) ∷ ps) msg h = ground (arith, h.0, match_safe-IsSafe ps msg h.1)

-- Whatever the text of an error, its lower case and the order in which the table is visited: the
-- sanitized text is one of the table's, or the generic one; with a prefix it is one of the
-- table's, or the prefix before the generic one.
pub sanitize_error-IsSafe :
    (z : Sanitizer) (text prefix : Bytes)
    → IsTable z.order
    → (is_safe (sanitize_error z text) ≡ true)
      × ((shows safe_errors (sanitize_error_with_prefix z text prefix) ≡ true)
          ⊎ (sanitize_error_with_prefix z text prefix ≡ prefix ++ bytes ": " ++ generic_error))
unfolding sanitize_error sanitize_error_with_prefix
sanitize_error-IsSafe z text prefix h = (safe, by_kind)
  where
    shown : Bytes
    shown = match_safe z.order (z.to_lower text)

    safe : is_safe shown ≡ true
    safe = match_safe-IsSafe z.order (z.to_lower text) h

    out : Bool → Bytes
    out b = if b then prefix ++ bytes ": " ++ shown else shown

    by_kind :
        (shows safe_errors (out (str_eq shown generic_error)) ≡ true)
        ⊎ (out (str_eq shown generic_error) ≡ prefix ++ bytes ": " ++ generic_error)
    by_kind = elim (Bool-cases (str_eq shown generic_error)) [
      | inl e ↦
          inr
            (ap out e ∙ ap (λ s. prefix ++ bytes ": " ++ s) ((str_eq_iff shown generic_error).0 e))
      | inr e ↦ inl (
          ap (λ b. shows safe_errors (out b)) e
          ∙ ground (arith, safe, e, str_eq_iff shown generic_error, str_eq_iff generic_error shown))
    ]
