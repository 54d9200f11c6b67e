-- ===== src/Examples/Parts.antt =====
-- The middleware at concrete inputs.
use content_storage_server.Prelude.{
  ◌+◌, ◌≤◌, ◌≡◌, ◌≢◌, ◌↔◌, ◌⊎◌, refl, Bool, true, false, Option, none, some, [], ◌∷◌, arith, Bytes,
  bytes, str_eq, length, if◌then◌else◌,
}
use content_storage_server.Middleware.Auth
use content_storage_server.Middleware.Auth.{
  AuthConfig, authenticate, always_public, public_by_config, presented_key,
}
use content_storage_server.Middleware.Auth.Sound.{IsPublic, Presents, authenticate_iff}
use content_storage_server.Middleware.Throttle.{
  new_rate_limiter, current_requests, run, arrive, granted, direct_done,
}
use content_storage_server.Middleware.Throttle.Invariant.{limits_hold}
use content_storage_server.Middleware.IpAllowlist.{Net, Lru, IsLru, Allowlist, Answer, check}
use content_storage_server.Middleware.IpAllowlist.Decide.{
  IsHealthPath, IsPermitted, IsConsistent, check_iff,
}
use content_storage_server.Examples.{a_key, b_key}

abbrev secured : AuthConfig
secured = record {
  api_key = bytes "secret";
  require_auth_for_ui = true;
  enable_swagger = false;
  allow_query_param_auth = true;
}

abbrev by_query : Auth.Request
by_query = record { path = bytes "/api/v1/content"; header_key = []; query_key = bytes "secret" }

authenticate_example :
    (authenticate secured by_query ≡ Auth.Decision.next)
    ↔ (IsPublic secured by_query.path ⊎ ((secured.api_key ≢ []) × Presents secured by_query))
authenticate_example = authenticate_iff secured by_query

limits_example :
    let r = run (new_rate_limiter 1 1) (arrive ∷ arrive ∷ direct_done ∷ granted ∷ []) in
    (r.direct + r.queued ≤ 1)
    × (r.waiting ≤ 1)
    × (r.backlog ≡ r.queued + r.waiting)
    × (current_requests r ≡ r.direct + r.queued)
limits_example = limits_hold 1 1 (arrive ∷ arrive ∷ direct_done ∷ granted ∷ [])

-- Networks are prefixes of text, addresses are text.
abbrev pub textual : Net Bytes Bytes
textual = record {
  trim_space = λ s. s;
  parse_cidr = λ s. some s;
  parse_ip = λ s. some s;
  ip_string = λ s. s;
  mask_size = λ s. length s;
  network_contains = λ n ip. str_eq n ip;
}

-- A cache of one entry.
abbrev remembered : Option (Bytes × Bool) → Bytes → Option Bool
remembered none i = none
remembered (some (k, v)) i = if str_eq k i then some v else none

abbrev pub one_entry : Lru (Option (Bytes × Bool))
one_entry = record { lookup = remembered; refresh = λ c k. c; add = λ c k v. some (k, v) }

pub one_entry-IsLru : IsLru one_entry
one_entry-IsLru = record {
  lookup-refresh = λ c k i v h. h;
  lookup-add_self = λ c k v w h. ground (arith, h);
  lookup-add_other = λ c k i v w e h. ground (arith, e, h);
}

abbrev two_networks : Allowlist Bytes
two_networks = record { exact_ips = a_key ∷ []; allowed_networks = a_key ∷ bytes "10.0" ∷ [] }

check_example :
    (((check textual one_entry two_networks none (bytes "/api") b_key).1 ≡ Answer.next) ↔ (
      ((two_networks.allowed_networks ≡ []) × (two_networks.exact_ips ≡ []))
      ⊎ IsHealthPath textual one_entry (bytes "/api")
      ⊎ IsPermitted textual two_networks b_key))
    × IsConsistent textual one_entry two_networks
        (check textual one_entry two_networks none (bytes "/api") b_key).0
check_example =
    check_iff textual one_entry one_entry-IsLru two_networks none (bytes "/api") b_key (λ i. refl)
