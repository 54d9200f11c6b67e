-- ===== src/Config/Validate.antt =====
-- `Validate` of pkg/config/config.go: its warnings and its errors, in the order in which they are appended.
use content_storage_server.Prelude.{
  ℕ, Bool, true, false, not, ◌&&◌, List, [], ◌∷◌, ◌++◌, Bytes, bytes, str_eq, is_empty, is_nil,
  length, if◌then◌else◌,
}
use content_storage_server.Prelude.Int64.{Int64, slt, sle}
use content_storage_server.Config.Env.{Parsers}
use content_storage_server.Config.{Config}

pub data Warning : Type 0 where
  auth_disabled no_origins all_origins query_param_auth no_tls public_swagger public_ui : Warning

pub data ConfigError (F : Type 0) : Type 0 where
  no_api_key : ConfigError F
  short_api_key : Int64 → ℕ → ConfigError F
  read_timeout write_timeout request_timeout shutdown_timeout : Int64 → ConfigError F
  max_content_size cache_size throttle_limit : Int64 → ConfigError F
  echo_rate_limit : F → ConfigError F

abbrev pub appended {ℓ} : {A : Type ℓ} → Bool → A → List A
appended true x = x ∷ []
appended false x = []

-- One warning for each origin that is "*".
unfoldable pub star_origins : List Bytes → List Warning
star_origins [] = []
star_origins (o ∷ os) = appended (str_eq o (bytes "*")) all_origins ++ star_origins os

unfoldable pub origin_warnings : List Bytes → List Warning
unfolding star_origins
origin_warnings origins = if is_nil origins then no_origins ∷ [] else star_origins origins

module _ {F : Type 0} where
  unfoldable pub warnings : Config F → List Warning
  unfolding origin_warnings
  warnings cfg =
      appended (not cfg.enable_auth) auth_disabled
      ++ origin_warnings cfg.allowed_origins
      ++ appended cfg.allow_query_param_auth query_param_auth
      ++ appended (not cfg.enable_tls && cfg.enable_auth) no_tls
      ++ appended (cfg.enable_swagger && cfg.enable_auth) public_swagger
      ++ appended (not cfg.require_auth_for_ui && cfg.enable_auth) public_ui

  -- The length of a string is below 2 ^ 63.
  unfoldable pub key_errors : Config F → List (ConfigError F)
  key_errors cfg =
      if is_empty cfg.api_key && cfg.enable_auth
      then no_api_key ∷ []
      else appended
          (not (is_empty cfg.api_key)
            && (slt 0 cfg.min_api_key_length && slt (length cfg.api_key) cfg.min_api_key_length))
          (short_api_key cfg.min_api_key_length (length cfg.api_key))

  unfoldable pub errors : Parsers F → Config F → List (ConfigError F)
  unfolding key_errors
  errors p cfg =
      key_errors cfg
      ++ appended (sle cfg.read_timeout 0) (read_timeout cfg.read_timeout)
      ++ appended (sle cfg.write_timeout 0) (write_timeout cfg.write_timeout)
      ++ appended (sle cfg.request_timeout 0) (request_timeout cfg.request_timeout)
      ++ appended (sle cfg.shutdown_timeout 0) (shutdown_timeout cfg.shutdown_timeout)
      ++ appended (sle cfg.max_content_size 0) (max_content_size cfg.max_content_size)
      ++ appended (slt cfg.cache_size 0) (cache_size cfg.cache_size)
      ++ appended (sle cfg.throttle_limit 0) (throttle_limit cfg.throttle_limit)
      ++ appended (p.not_positive cfg.echo_rate_limit) (echo_rate_limit cfg.echo_rate_limit)

  -- `Validate`.
  unfoldable pub validate : Parsers F → Config F → List Warning × List (ConfigError F)
  unfolding warnings errors
  validate p cfg = (warnings cfg, errors p cfg)
