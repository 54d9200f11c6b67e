-- ===== src/Config/Sound.antt =====
-- Which configurations `Validate` of pkg/config/config.go accepts.
use content_storage_server.Prelude.{
  ◌<◌, ◌≤◌, ◌≡◌, ◌↔◌, refl, Bool, true, false, not, ◌&&◌, none, some, List, [], ◌∷◌, ◌++◌, arith,
  Bytes, bytes, str_eq, is_empty, is_nil, length, if◌then◌else◌,
}
use content_storage_server.Prelude.Int64.{Int64, slt, sle}
use content_storage_server.Config.Env.{
  Environment, Parsers, env, env_int, env_int64, env_bool, env_duration, env_string_slice,
  env_string_map, env_float64,
}
use content_storage_server.Config.{Config, load}
use content_storage_server.Config.Validate.{
  ConfigError, no_api_key, short_api_key, appended, key_errors, errors, validate,
}

-- A positive int64.
abbrev pub IsPositive : Int64 → Type 0
IsPositive x = slt 0 x ≡ true

-- The environment in which only the API key is set.
abbrev pub only_key : Bytes → Environment
only_key k name = if str_eq name (bytes "API_KEY") then some k else none

module _ {F : Type 0} (p : Parsers F) where
  pub record IsSound (cfg : Config F) : Type 0 where
    pub key_set : cfg.enable_auth ≡ true → is_empty cfg.api_key ≡ false
    pub key_long :
        is_empty cfg.api_key ≡ false
        → IsPositive cfg.min_api_key_length
        → slt (length cfg.api_key) cfg.min_api_key_length ≡ false
    pub read_positive : IsPositive cfg.read_timeout
    pub write_positive : IsPositive cfg.write_timeout
    pub request_positive : IsPositive cfg.request_timeout
    pub shutdown_positive : IsPositive cfg.shutdown_timeout
    pub content_positive : IsPositive cfg.max_content_size
    pub cache_not_negative : slt cfg.cache_size 0 ≡ false
    pub throttle_positive : IsPositive cfg.throttle_limit
    pub rate_positive : p.not_positive cfg.echo_rate_limit ≡ false

  nil-append {ℓ} : {A : Type ℓ} (xs ys : List A) → is_nil (xs ++ ys) ≡ (is_nil xs && is_nil ys)
  nil-append [] ys = refl
  nil-append (x ∷ xs) ys = refl

  nil-appended {ℓ} : {A : Type ℓ} (c : Bool) (x : A) → is_nil (appended c x) ≡ not c
  nil-appended true x = refl
  nil-appended false x = refl

  errors-nil :
      (cfg : Config F)
      → is_nil (errors p cfg) ≡ (
          is_nil (key_errors cfg)
          && not (sle cfg.read_timeout 0)
          && not (sle cfg.write_timeout 0)
          && not (sle cfg.request_timeout 0)
          && not (sle cfg.shutdown_timeout 0)
          && not (sle cfg.max_content_size 0)
          && not (slt cfg.cache_size 0)
          && not (sle cfg.throttle_limit 0)
          && not (p.not_positive cfg.echo_rate_limit))
  unfolding errors
  errors-nil cfg = simp (nil-append, nil-appended)

  both_iff :
      {P Q : Type 0} (x y : Bool) → (x ≡ true) ↔ P → (y ≡ true) ↔ Q → ((x && y) ≡ true) ↔ (P × Q)
  both_iff true y f g = (λ h. (f.0 refl, g.0 h), λ h. g.1 h.1)
  both_iff false y f g = (λ h. absurd (cc h), λ h. f.1 h.0)

  IsPositive-iff : (x : Int64) → (not (sle x 0) ≡ true) ↔ IsPositive x
  IsPositive-iff x = (λ h. ground arith, λ h. ground arith)

  not_iff : (x : Bool) → (not x ≡ true) ↔ (x ≡ false)
  not_iff x = (λ h. ground arith, λ h. ground arith)

  key_errors_iff :
      (cfg : Config F)
      → (is_nil (key_errors cfg) ≡ true) ↔ (
          (cfg.enable_auth ≡ true → is_empty cfg.api_key ≡ false)
          × (is_empty cfg.api_key ≡ false
              → IsPositive cfg.min_api_key_length
              → slt (length cfg.api_key) cfg.min_api_key_length ≡ false))
  unfolding key_errors
  key_errors_iff cfg =
      by_parts (is_empty cfg.api_key) cfg.enable_auth (slt 0 cfg.min_api_key_length)
        (slt (length cfg.api_key) cfg.min_api_key_length)
    where
      errs : Bool → Bool → Bool → Bool → List (ConfigError F)
      errs e a m l =
          if e && a
          then no_api_key ∷ []
          else appended (not e && (m && l))
              (short_api_key cfg.min_api_key_length (length cfg.api_key))

      by_parts :
          (e a m l : Bool)
          → (is_nil (errs e a m l) ≡ true)
            ↔ ((a ≡ true → e ≡ false) × (e ≡ false → m ≡ true → l ≡ false))
      by_parts true true m l = (λ h. absurd (cc h), λ h. absurd (cc (h.0 refl)))
      by_parts true false m l = (λ h. (λ x. cc, λ x. cc), λ h. refl)
      by_parts false a true true = (λ h. absurd (cc h), λ h. absurd (cc (h.1 refl refl)))
      by_parts false a true false = (λ h. (λ x. refl, λ x y. refl), λ h. refl)
      by_parts false a false l = (λ h. (λ x. refl, λ x y. cc), λ h. refl)

  -- `Validate` reports no error exactly if a key is set or authentication is off, a key that is
  -- set is as long as required, the timeouts, the content size and the limits are positive, and
  -- the cache size is not negative.
  pub validate_iff : (cfg : Config F) → (is_nil (validate p cfg).1 ≡ true) ↔ IsSound cfg
  unfolding validate
  validate_iff cfg =
      let parts =
        both_iff _ _
          (both_iff _ _
            (both_iff _ _
              (both_iff _ _
                (both_iff _ _
                  (both_iff _ _
                    (both_iff _ _
                      (both_iff _ _ (key_errors_iff cfg) (IsPositive-iff cfg.read_timeout))
                      (IsPositive-iff cfg.write_timeout))
                    (IsPositive-iff cfg.request_timeout))
                  (IsPositive-iff cfg.shutdown_timeout))
                (IsPositive-iff cfg.max_content_size))
              (not_iff (slt cfg.cache_size 0)))
            (IsPositive-iff cfg.throttle_limit))
          (not_iff (p.not_positive cfg.echo_rate_limit)) in
      rw (errors-nil cfg) (
        λ h.
            let c = parts.0 h in
            record {
              key_set = c.0.0.0.0.0.0.0.0.0;
              key_long = c.0.0.0.0.0.0.0.0.1;
              read_positive = c.0.0.0.0.0.0.0.1;
              write_positive = c.0.0.0.0.0.0.1;
              request_positive = c.0.0.0.0.0.1;
              shutdown_positive = c.0.0.0.0.1;
              content_positive = c.0.0.0.1;
              cache_not_negative = c.0.0.1;
              throttle_positive = c.0.1;
              rate_positive = c.1;
            },
        λ s. parts.1 (
          (
            (
              (
                (
                  (
                    (((s.key_set, s.key_long), s.read_positive), s.write_positive),
                    s.request_positive,
                  ),
                  s.shutdown_positive,
                ),
                s.content_positive,
              ),
              s.cache_not_negative,
            ),
            s.throttle_positive,
          ),
          s.rate_positive,
        ),
      )

  not_short :
      (k : Bytes) → length k < 9223372036854775808 → slt (length k) 32 ≡ false → 32 ≤ length k
  not_short k small h = ground (arith, h)

  long_enough :
      (k : Bytes) → length k < 9223372036854775808 → 32 ≤ length k → slt (length k) 32 ≡ false
  long_enough k small h = ground arith

  long_not_empty : (k : Bytes) → 32 ≤ length k → is_empty k ≡ false
  long_not_empty [] h = absurd (omega (arith, h))
  long_not_empty (c ∷ s) h = refl

  -- If only the API key is set, to fewer than 2 ^ 63 bytes, and 100 counts as positive, then what
  -- is loaded is accepted exactly if the key has at least 32 bytes: no other default is an error,
  -- and authentication is on.
  pub only_key_iff :
      (k : Bytes)
      → p.not_positive (p.ratio 100 1) ≡ false
      → length k < 9223372036854775808
      → (is_nil (validate p (load p (only_key k))).1 ≡ true) ↔ (32 ≤ length k)
  unfolding load str_eq env env_int env_int64 env_bool env_duration env_string_slice env_string_map
      env_float64
  only_key_iff k h small =
      let cfg = load p (only_key k) in
      (
        λ e. let s = (validate_iff cfg).0 e in not_short k small (s.key_long (s.key_set refl) refl),
        λ n. (validate_iff cfg).1 (record {
          key_set = λ on. long_not_empty k n;
          key_long = λ set positive. long_enough k small n;
          read_positive = refl;
          write_positive = refl;
          request_positive = refl;
          shutdown_positive = refl;
          content_positive = refl;
          cache_not_negative = refl;
          throttle_positive = refl;
          rate_positive = h;
        }),
      )
