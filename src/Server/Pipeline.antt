-- ===== src/Server/Pipeline.antt =====
-- pkg/middleware/setup.go: the middleware that may refuse a request, in its order, behind the shutdown
-- middleware that cmd/server/main.go puts first. Echo's own rate limiter (pkg/middleware/
-- echo_rate_limiter.go) and its CORS middleware, which answers preflight requests, are parameters.
pub mod Passed
use content_storage_server.Prelude.{
  ℕ, Bool, true, false, not, Option, none, some, List, [], ◌∷◌, Bytes, is_nil, if◌then◌else◌,
}
use content_storage_server.Config.Env.{Parsers}
use content_storage_server.Config.{Config}
use content_storage_server.Handlers.Shutdown.{ShutdownHandler, is_shutting_down}
use content_storage_server.Middleware.Auth.{AuthConfig, Request, Decision, authenticate}
use content_storage_server.Middleware.Auth as Auth
use content_storage_server.Middleware.Throttle.{
  RateLimiter, Event, Outcome, runs, waits, too_many, timeout, granted, timed_out, direct_done,
  queued_done, admit, step, settle,
}
use content_storage_server.Middleware.IpAllowlist.{
  Net, Lru, Allowlist, Answer, next, access_denied, invalid_ip_format, new_allowlist, check,
}

-- Echo's limiter on a request from an address, and whether CORS answers the request itself.
pub record Echo (E : Type 0) : Type 0 where
  pub allow : E → Bytes → E × Bool
  pub is_preflight : Request → Bool

-- The state that the middleware keeps.
pub record Gate (E C : Type 0) : Type 0 where
  pub echo : E
  pub limiter : RateLimiter
  pub cache : C

pub data Reply : Type 0 where
  handled waiting shut_down rate_limited throttled denied invalid_address preflight unauthorized :
      Reply

-- What is up to the others while a request waits in the backlog: what they do to the state until the
-- wait ends, and whether it ends by its timeout.
pub record Wait (E C : Type 0) : Type 0 where
  pub meanwhile : Gate E C → Gate E C
  pub is_late : Bool

-- The fields that the API key middleware reads.
abbrev pub auth_config : {F : Type 0} → Config F → AuthConfig
auth_config cfg = record {
  api_key = cfg.api_key;
  require_auth_for_ui = cfg.require_auth_for_ui;
  enable_swagger = cfg.enable_swagger;
  allow_query_param_auth = cfg.allow_query_param_auth;
}

abbrev of_decision : Decision → Reply
of_decision Auth.next = handled
of_decision Auth.unauthorized = unauthorized

abbrev of_answer : Answer → Reply → Reply
of_answer next reply = reply
of_answer access_denied reply = denied
of_answer invalid_ip_format reply = invalid_address

abbrev pub is_handled : Reply → Bool
is_handled handled = true
is_handled _ = false

module _ {F E C N A : Type 0} (p : Parsers F) (echo : Echo E) (net : Net N A) (lru : Lru C) where
  -- CORS and the key check.
  unfoldable pub authorized : Config F → Request → Reply
  authorized cfg r =
      if echo.is_preflight r
      then preflight
      else if cfg.enable_auth
      then of_decision (authenticate (auth_config cfg) r)
      else handled

  -- Behind the throttle: the address list, if there is one, then the rest.
  unfoldable pub inside : Config F → Request → Bytes → C → C × Reply
  unfolding authorized check new_allowlist
  inside cfg r client c =
      if is_nil cfg.allowed_ips
      then (c, authorized cfg r)
      else (let (c', answer) = check net lru (new_allowlist net cfg.allowed_ips) c r.path client in
          (c', of_answer answer (authorized cfg r)))

  -- A request that got a slot: one that is refused gives the slot back at once, by the event `done`.
  unfoldable pub with_slot : Config F → Request → Bytes → Event → Gate E C → Gate E C × Reply
  unfolding inside
  with_slot cfg r client done g =
      let (c', reply) = inside cfg r client g.cache in
      let g' = record g { cache = c' } in
      if is_handled reply
      then (g', reply)
      else (record g' { limiter = settle g'.limiter (step g'.limiter done) }, reply)

  -- A request of the backlog: it gets a slot and goes on, or its time runs out. It waits on if it
  -- is not late and no slot is free.
  unfoldable pub after_wait : Config F → Request → Bytes → Wait E C → Gate E C → Gate E C × Reply
  unfolding with_slot
  after_wait cfg r client w g =
      let g' = w.meanwhile g in
      if w.is_late
      then (record g' { limiter = settle g'.limiter (step g'.limiter timed_out) }, throttled)
      else (elim (step g'.limiter granted) [
        | none ↦ (g', waiting)
        | some (l, o) ↦ with_slot cfg r client queued_done (record g' { limiter = l })
      ])

  unfoldable pub throttle : Config F → Request → Bytes → Wait E C → Gate E C → Gate E C × Reply
  unfolding after_wait with_slot admit
  throttle cfg r client w g =
      let (l, outcome) = admit g.limiter in
      let g' = record g { limiter = l } in
      elim outcome [
        | runs ↦ with_slot cfg r client direct_done g'
        | waits ↦ after_wait cfg r client w g'
        | too_many ↦ (g', throttled)
        | timeout ↦ (g', throttled)
      ]

  -- A request from `client` through the whole stack.
  unfoldable pub arrive :
      Config F → ShutdownHandler → Request → Bytes → Wait E C → Gate E C → Gate E C × Reply
  unfolding throttle is_shutting_down
  arrive cfg h r client w g =
      if is_shutting_down h
      then (g, shut_down)
      else if p.is_positive cfg.echo_rate_limit
      then (let (e', ok) = echo.allow g.echo client in
          let g' = record g { echo = e' } in
          if ok then throttle cfg r client w g' else (g', rate_limited))
      else throttle cfg r client w g
