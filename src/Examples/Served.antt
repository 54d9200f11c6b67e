-- ===== src/Examples/Served.antt =====
-- The server started with only its API key set: its configuration, its storage, a request and its end.
use content_storage_server.Prelude.{
  ℕ, ◌+◌, ◌≡◌, ◌≤◌, ◌↔◌, refl, Bool, true, false, not, ◌&&◌, Option, none, some, List, [], ◌∷◌,
  arith, Bytes, bytes, str_eq, is_nil, length, leb, ltb, ◌-◌, suc, has_prefix, if◌then◌else◌,
}
use content_storage_server.Prelude.Assoc.{Assoc}
use content_storage_server.Storage.Error.{other}
use content_storage_server.Handlers.Http.{Response}
use content_storage_server.Handlers.Shutdown.{
  new_shutdown_handler, is_shutting_down, middleware, shutdown_response,
}
use content_storage_server.Middleware.Auth.{Request}
use content_storage_server.Middleware.Throttle.{new_rate_limiter}
use content_storage_server.Config.{Config, load}
use content_storage_server.Config.Env.{Environment, Parsers, trim_space, env_string_slice}
use content_storage_server.Config.Env.Lists.{IsEntry, join, env_string_slice-join}
use content_storage_server.Config.Validate.{validate}
use content_storage_server.Config.Sound.{IsSound, validate_iff, only_key, only_key_iff}
use content_storage_server.Storage.Open.{
  Storage, Opened, database, not_opened, created, initialize_storage,
}
use content_storage_server.Storage.Open.Ready.{IsReady, initialize_storage-IsReady}
use content_storage_server.Server.Signals.{
  Signal, interrupt, terminate, Store, serve_http, serve_tls,
}
use content_storage_server.Server.Signals.Endings.{
  expected, emergency_code, outcome, serve_lem, serve-refuses,
}
use content_storage_server.Server.Pipeline.{Echo, Gate, Wait, is_handled, arrive}
use content_storage_server.Server.Pipeline.Passed.{
  address_ok, key_ok, rate_ok, Consistent, KeepsSlots, arrive_lem, gets_slot, allowed,
}
use content_storage_server.Examples.{memory, plain}
use content_storage_server.Examples.Parts.{textual, one_entry, one_entry-IsLru}

-- Fractions rounded down, and no value that parses.
abbrev whole_numbers : Parsers ℕ
whole_numbers = record {
  parse_duration = λ s. none;
  parse_float = λ s. none;
  ratio = λ n d. n;
  not_positive = λ x. leb x 0;
  is_positive = λ x. ltb 0 x;
}

abbrev long_key : Bytes
long_key = bytes "0123456789abcdef0123456789abcdef"

abbrev only_keyed : Config ℕ
only_keyed = load whole_numbers (only_key long_key)

validate_example :
    (is_nil (validate whole_numbers only_keyed).1 ≡ true) ↔ IsSound whole_numbers only_keyed
validate_example = validate_iff whole_numbers only_keyed

only_key_example : (is_nil (validate whole_numbers only_keyed).1 ≡ true) ↔ (32 ≤ length long_key)
only_key_example = only_key_iff whole_numbers long_key refl (omega arith)

abbrev two_hosts : Environment
two_hosts name = if str_eq name (bytes "TLS_HOSTS") then some (bytes "a.org,b.org") else none

a_host-IsEntry : IsEntry (bytes "a.org")
unfolding trim_space has_prefix
a_host-IsEntry = record { no_comma = refl; not_empty = refl; no_space = refl }

b_host-IsEntry : IsEntry (bytes "b.org")
unfolding trim_space has_prefix
b_host-IsEntry = record { no_comma = refl; not_empty = refl; no_space = refl }

env_string_slice_example :
    env_string_slice two_hosts (bytes "TLS_HOSTS") [] ≡ bytes "a.org" ∷ bytes "b.org" ∷ []
unfolding str_eq join
env_string_slice_example =
    env_string_slice-join two_hosts (bytes "TLS_HOSTS") [] (bytes "a.org") (bytes "b.org" ∷ [])
      (a_host-IsEntry, (b_host-IsEntry, tt)) refl

-- The database opens at the second attempt.
abbrev opens_late : ℕ → Opened (Assoc Bytes)
opens_late n = if leb 2 n then database [] else not_opened (other [])

abbrev without_recovery : Config ℕ
without_recovery = record only_keyed { enable_emergency_recovery = false }

initialize_storage-IsReady_example :
    (s : Storage (Assoc Bytes)) × (initialize_storage without_recovery
        (bytes "data")
        (λ q. q)
        5
        opens_late
        true
        true
      ≡ created s)
    × IsReady memory plain s
unfolding load str_eq
initialize_storage-IsReady_example =
    initialize_storage-IsReady memory plain without_recovery (bytes "data") (λ q. q) 5 opens_late
      true 1 [] refl (omega arith) (omega arith) (omega arith) refl refl refl (omega arith)

-- The number of times that it was shut down or closed, and a shutdown that succeeds.
abbrev counted : Store ℕ
counted = record { emergency_shutdown = λ n. (suc n, false); close = λ n. suc n }

-- Two signals within a second.
abbrev both_signals : List (Signal × ℕ)
both_signals = (interrupt, 1000000000) ∷ (terminate, 2000000000) ∷ []

serve_example :
    ((serve_http counted 1000000 false both_signals 0).1
      ≡ outcome counted (emergency_code counted false 0) 0 (expected 1000000 both_signals))
    × ((serve_tls counted 1000000 false both_signals 0).1
        ≡ outcome counted 1 0 (expected 1000000 both_signals))
serve_example = serve_lem counted 1000000 false both_signals 0 (omega arith)

abbrev answered : ℕ → ℕ × Response
answered n = (suc n, shutdown_response)

serve-refuses_example :
    (middleware (serve_http counted 1000000 false both_signals 0).0 answered 4
      ≡ (4, shutdown_response))
    × (middleware (serve_tls counted 1000000 false both_signals 0).0 answered 4
        ≡ (4, shutdown_response))
serve-refuses_example =
    serve-refuses counted 1000000 false interrupt 1000000000 ((terminate, 2000000000) ∷ []) 0
      answered 4

-- A limiter that counts down, and no preflight requests.
abbrev counting_down : Echo ℕ
counting_down = record { allow = λ n client. (n - 1, ltb 0 n); is_preflight = λ r. false }

abbrev listed : Config ℕ
listed = record only_keyed { allowed_ips = bytes "10.0" ∷ [] }

abbrev a_request : Request
a_request = record { path = bytes "/api"; header_key = long_key; query_key = [] }

-- Both slots are taken, one request waits at most, and a slot is given back while it waits.
abbrev at_rest : Gate ℕ (Option (Bytes × Bool))
at_rest = record {
  echo = 3;
  limiter = record (new_rate_limiter 2 1) { slots = 0; direct = 2 };
  cache = none;
}

abbrev one_ends : Wait ℕ (Option (Bytes × Bool))
one_ends = record {
  meanwhile =
      λ g. record g { limiter = record g.limiter { slots = g.limiter.slots + 1; direct = 1 } };
  is_late = false;
}

arrive_example :
    let out =
      arrive whole_numbers counting_down textual one_entry listed new_shutdown_handler a_request
        (bytes "10.0")
        one_ends
        at_rest in
    (is_handled out.1 ≡ (
      not (is_shutting_down new_shutdown_handler)
      && (rate_ok whole_numbers counting_down textual one_entry one_entry-IsLru listed a_request
            (bytes "10.0")
            3
          && (gets_slot whole_numbers counting_down textual one_entry one_entry-IsLru listed
                a_request
                (bytes "10.0")
                one_ends
                (allowed whole_numbers counting_down textual one_entry one_entry-IsLru listed
                  a_request
                  (bytes "10.0")
                  at_rest)
              && (address_ok whole_numbers counting_down textual one_entry listed a_request
                    (bytes "10.0")
                  && key_ok whole_numbers counting_down textual one_entry listed a_request)))))
    × Consistent whole_numbers counting_down textual one_entry one_entry-IsLru listed a_request
        (bytes "10.0")
        out.0.cache
    × KeepsSlots whole_numbers counting_down textual one_entry one_entry-IsLru listed a_request
        (bytes "10.0")
        at_rest.limiter
        out
arrive_example =
    arrive_lem whole_numbers counting_down textual one_entry one_entry-IsLru listed a_request
      (bytes "10.0") new_shutdown_handler one_ends at_rest
      (record { agrees = λ g ok. ok; waits_on = λ g here. here }) (λ i. refl)
