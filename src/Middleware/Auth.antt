-- ===== src/Middleware/Auth.antt =====
-- pkg/middleware/auth.go: API key authentication.
pub mod Sound
use content_storage_server.Prelude.{
  Bool, true, false, not, ◌&&◌, ◌||◌, Bytes, bytes, str_eq, is_empty, has_prefix, if◌then◌else◌,
}

-- The fields of `config.Config` that the middleware reads.
pub record AuthConfig : Type 0 where
  pub api_key : Bytes
  pub require_auth_for_ui : Bool
  pub enable_swagger : Bool
  pub allow_query_param_auth : Bool

-- `header_key` and `query_key` are empty if the request has no such header or parameter.
pub record Request : Type 0 where
  pub path : Bytes
  pub header_key : Bytes
  pub query_key : Bytes

-- `next` calls the next handler; `unauthorized` is HTTP 401.
pub data Decision : Type 0 where
  next unauthorized : Decision

unfoldable pub always_public : Bytes → Bool
always_public path =
    str_eq path (bytes "/health")
    || str_eq path (bytes "/health/detailed")
    || str_eq path (bytes "/ping")
    || has_prefix path (bytes "/debug/")

unfoldable pub public_by_config : AuthConfig → Bytes → Bool
public_by_config cfg path =
    (not cfg.require_auth_for_ui && (str_eq path (bytes "/") || has_prefix path (bytes "/static/")))
    || (cfg.enable_swagger && has_prefix path (bytes "/swagger/"))

-- The header's key, or the query's if that is allowed and the header has none.
unfoldable pub presented_key : AuthConfig → Request → Bytes
presented_key cfg r =
    if is_empty r.header_key && cfg.allow_query_param_auth then r.query_key else r.header_key

unfoldable pub authenticate : AuthConfig → Request → Decision
authenticate cfg r =
    if always_public r.path
    then next
    else if public_by_config cfg r.path
    then next
    else (let key = presented_key cfg r in
        if is_empty key || is_empty cfg.api_key || not (str_eq key cfg.api_key)
        then unauthorized
        else next)
