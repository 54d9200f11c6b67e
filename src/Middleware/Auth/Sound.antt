-- ===== src/Middleware/Auth/Sound.antt =====
-- Who passes pkg/middleware/auth.go.
use content_storage_server.Prelude.{
  ◌≡◌, ◌≢◌, ◌↔◌, ◌⊎◌, inl, inr, true, false, ◌||◌, [], ◌∷◌, arith, Bytes, bytes, str_eq_iff,
  is_empty, has_prefix,
}
use content_storage_server.Middleware.Auth.{
  AuthConfig, Request, next, always_public, public_by_config, presented_key, authenticate,
}

is_empty_iff : (s : Bytes) → (is_empty s ≡ true) ↔ (s ≡ [])
is_empty_iff [] = ground arith
is_empty_iff (x ∷ s) = ground arith

-- The paths that anyone may read.
abbrev pub IsPublic : AuthConfig → Bytes → Type 0
IsPublic cfg path =
    (path ≡ bytes "/health")
    ⊎ (path ≡ bytes "/health/detailed")
    ⊎ (path ≡ bytes "/ping")
    ⊎ (has_prefix path (bytes "/debug/") ≡ true)
    ⊎ ((cfg.require_auth_for_ui ≡ false)
        × ((path ≡ bytes "/") ⊎ (has_prefix path (bytes "/static/") ≡ true)))
    ⊎ ((cfg.enable_swagger ≡ true) × (has_prefix path (bytes "/swagger/") ≡ true))

-- The key is in the header, or in the query if that is allowed and the header has none.
abbrev pub Presents : AuthConfig → Request → Type 0
Presents cfg r =
    (r.header_key ≡ cfg.api_key)
    ⊎ ((r.header_key ≡ []) × (cfg.allow_query_param_auth ≡ true) × (r.query_key ≡ cfg.api_key))

IsPublic-iff :
    (cfg : AuthConfig) (path : Bytes)
    → ((always_public path || public_by_config cfg path) ≡ true) ↔ IsPublic cfg path
unfolding always_public public_by_config
IsPublic-iff cfg path = (
  λ h. ground (
    arith,
    h,
    str_eq_iff path (bytes "/health"),
    str_eq_iff path (bytes "/health/detailed"),
    str_eq_iff path (bytes "/ping"),
    str_eq_iff path (bytes "/"),
  ),
  λ h. ground (
    arith,
    h,
    str_eq_iff path (bytes "/health"),
    str_eq_iff path (bytes "/health/detailed"),
    str_eq_iff path (bytes "/ping"),
    str_eq_iff path (bytes "/"),
  ),
)

Presents-iff :
    (cfg : AuthConfig) (r : Request)
    → cfg.api_key ≢ []
    → (presented_key cfg r ≡ cfg.api_key) ↔ Presents cfg r
unfolding presented_key
Presents-iff cfg r set = (
  λ h. ground (arith, h, set, is_empty_iff r.header_key),
  λ h. ground (arith, h, set, is_empty_iff r.header_key),
)

by_parts :
    (cfg : AuthConfig) (r : Request)
    → (authenticate cfg r ≡ next) ↔ (
        ((always_public r.path || public_by_config cfg r.path) ≡ true)
        ⊎ ((cfg.api_key ≢ []) × (presented_key cfg r ≡ cfg.api_key)))
unfolding authenticate
by_parts cfg r =
    let key = presented_key cfg r in
    (
      (λ h. ground (arith, str_eq_iff key cfg.api_key, is_empty_iff key, is_empty_iff cfg.api_key)),
      (λ h. ground (arith, str_eq_iff key cfg.api_key, is_empty_iff key, is_empty_iff cfg.api_key)),
    )

-- A request passes the API key middleware exactly if its path is public, or the server has a key
-- and the request presents it. Public are /health, /health/detailed, /ping and what begins with
-- /debug/; / and what begins with /static/ unless the UI needs a key; and what begins with
-- /swagger/ if Swagger is enabled. The key is presented in the header, or in the query if the
-- header has none and keys in the query are allowed.
pub authenticate_iff :
    (cfg : AuthConfig) (r : Request)
    → (authenticate cfg r ≡ next) ↔ (IsPublic cfg r.path ⊎ ((cfg.api_key ≢ []) × Presents cfg r))
authenticate_iff cfg r = (
  λ h. elim ((by_parts cfg r).0 h) [
    | inl e ↦ inl ((IsPublic-iff cfg r.path).0 e)
    | inr (set, e) ↦ inr (set, (Presents-iff cfg r set).0 e)
  ],
  λ h. (by_parts cfg r).1 (elim h [
    | inl e ↦ inl ((IsPublic-iff cfg r.path).1 e)
    | inr (set, e) ↦ inr (set, (Presents-iff cfg r set).1 e)
  ]),
)
