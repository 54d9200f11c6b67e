-- ===== src/Server/Pipeline/Passed.antt =====
-- What a request has passed when it reaches its handler (pkg/middleware/setup.go).
use content_storage_server.Prelude.{
  ◌+◌, ◌-◌, ◌≡◌, inl, inr, refl, ap, ◌∙◌, Bool, true, false, not, ◌||◌, ◌&&◌, arith, Bytes, is_nil,
  ltb, if◌then◌else◌, Bool-cases,
}
use content_storage_server.Config.Env.{Parsers}
use content_storage_server.Config.{Config}
use content_storage_server.Handlers.Shutdown.{ShutdownHandler, is_shutting_down}
use content_storage_server.Middleware.Auth.{Request, Decision, authenticate}
use content_storage_server.Middleware.Auth as Auth
use content_storage_server.Middleware.Throttle.{
  RateLimiter, Event, waits, direct_done, queued_done, admit, step, settle,
}
use content_storage_server.Middleware.IpAllowlist.{
  Net, Lru, IsLru, Answer, next, access_denied, invalid_ip_format, new_allowlist, unrestricted,
  health_path, check,
}
use content_storage_server.Middleware.IpAllowlist.Decide.{
  is_next, permitted, IsConsistent, check_lem,
}
use content_storage_server.Server.Pipeline.{
  Echo, Gate, Wait, Reply, handled, preflight, after_wait, auth_config, authorized, inside,
  with_slot, is_handled, of_answer, of_decision, throttle, arrive,
}

module _ {F E C N A : Type 0} (p : Parsers F) (echo : Echo E) (net : Net N A) (lru : Lru C) where
  -- What the address list and the key check want of a request.
  abbrev pub address_ok : Config F → Request → Bytes → Bool
  address_ok cfg r client =
      let a = new_allowlist net cfg.allowed_ips in
      is_nil cfg.allowed_ips
      || (unrestricted net a || health_path net lru r.path || permitted net a client)

  abbrev pub passes : Decision → Bool
  passes Auth.next = true
  passes Auth.unauthorized = false

  -- The key check passes, or is not configured, and the request is no preflight.
  abbrev pub key_ok : Config F → Request → Bool
  key_ok cfg r =
      not (echo.is_preflight r)
      && (not cfg.enable_auth || passes (authenticate (auth_config cfg) r))

  authorized_lem :
      (cfg : Config F) (r : Request) → is_handled (authorized p echo net lru cfg r) ≡ key_ok cfg r
  unfolding authorized
  authorized_lem cfg r =
      by_parts (echo.is_preflight r) cfg.enable_auth (authenticate (auth_config cfg) r)
    where
      by_parts :
          (pf on : Bool) (d : Decision)
          → is_handled (if pf then preflight else if on then of_decision d else handled)
            ≡ (not pf && (not on || passes d))
      by_parts true on d = refl
      by_parts false false d = refl
      by_parts false true Auth.next = refl
      by_parts false true Auth.unauthorized = refl

  of_answer_lem :
      (a : Answer) (reply : Reply)
      → is_handled (of_answer a reply) ≡ (is_next a && is_handled reply)
  of_answer_lem next reply = refl
  of_answer_lem access_denied reply = refl
  of_answer_lem invalid_ip_format reply = refl

  module _ (L : IsLru lru) (cfg : Config F) (r : Request) (client : Bytes) where
    abbrev pub Consistent : C → Type 0
    Consistent c = IsConsistent net lru (new_allowlist net cfg.allowed_ips) c

    inside_lem :
        (c : C)
        → Consistent c
        → (is_handled (inside p echo net lru cfg r client c).1
            ≡ (address_ok cfg r client && key_ok cfg r))
          × Consistent (inside p echo net lru cfg r client c).0
    unfolding inside
    inside_lem c ok =
        let (passed, kept) =
          check_lem net lru L (new_allowlist net cfg.allowed_ips) c r.path client ok in
        elim (Bool-cases (is_nil cfg.allowed_ips)) [
          | inl e ↦ rw (e, inside) (authorized_lem cfg r, ok)
          | inr e ↦
              rw (e, inside)
                (
                  of_answer_lem
                        (check net lru (new_allowlist net cfg.allowed_ips) c r.path client).1
                        (authorized p echo net lru cfg r)
                      ∙ ap (λ x. x && is_handled (authorized p echo net lru cfg r)) passed
                      ∙ ap
                          (λ x.
                            (unrestricted net (new_allowlist net cfg.allowed_ips)
                              || health_path net lru r.path
                              || permitted net (new_allowlist net cfg.allowed_ips) client)
                            && x)
                          (authorized_lem cfg r),
                  kept,
                )
        ]

    -- What a request behind the throttle comes to: it is handled and keeps its slot, or its event
    -- gives the slot back.
    with_slot_lem :
        (done : Event) (g : Gate E C)
        → Consistent g.cache
        → let out = with_slot p echo net lru cfg r client done g in
          (is_handled out.1 ≡ (address_ok cfg r client && key_ok cfg r))
          × Consistent out.0.cache
          × (out.0.limiter
              ≡ (if is_handled out.1 then g.limiter else settle g.limiter (step g.limiter done)))
    unfolding with_slot
    with_slot_lem done g ok =
        let (passed, kept) = inside_lem g.cache ok in
        elim (Bool-cases (is_handled (inside p echo net lru cfg r client g.cache).1)) [
          | inl e ↦ rw (e, with_slot) (passed, kept, rw e refl)
          | inr e ↦ rw (e, with_slot) (passed, kept, rw e refl)
        ]

    given_back :
        (l : RateLimiter)
        → ltb 0 l.slots ≡ true
        → settle (admit l).0 (step (admit l).0 direct_done) ≡ l
    unfolding admit step
    given_back l e = ground (arith, e)

    -- A request that finds a slot free, or the backlog full, and is refused leaves the limiter as
    -- it was.
    abbrev pub KeepsSlots : RateLimiter → Gate E C × Reply → Type 0
    KeepsSlots l out =
        (ltb 0 l.slots || not (ltb l.backlog l.max_backlog)) ≡ true
        → is_handled out.1 ≡ false
        → out.0.limiter ≡ l

    -- What is done during a wait keeps the cache in order, and leaves the request in the backlog.
    pub record IsWait (w : Wait E C) : Type 0 where
      pub agrees : (g : Gate E C) → Consistent g.cache → Consistent (w.meanwhile g).cache
      pub waits_on :
          (g : Gate E C)
          → ltb 0 g.limiter.waiting ≡ true
          → ltb 0 (w.meanwhile g).limiter.waiting ≡ true

    -- The state with the request in the backlog.
    abbrev pub in_backlog : Gate E C → Gate E C
    in_backlog g =
        let l = g.limiter in
        record g { limiter = record l { backlog = l.backlog + 1; waiting = l.waiting + 1 } }

    -- A slot is free at once, or there is a place in the backlog, and a slot is free when the wait
    -- ends in time.
    abbrev pub gets_slot : Wait E C → Gate E C → Bool
    gets_slot w g =
        ltb 0 g.limiter.slots
        || (ltb g.limiter.backlog g.limiter.max_backlog
            && (not w.is_late && ltb 0 (w.meanwhile (in_backlog g)).limiter.slots))

    abbrev granted_limiter : RateLimiter → RateLimiter
    granted_limiter l = record l {
      slots = l.slots - 1;
      waiting = l.waiting - 1;
      queued = l.queued + 1;
    }

    after_wait_lem :
        (w : Wait E C) (g : Gate E C)
        → IsWait w
        → Consistent g.cache
        → ltb 0 g.limiter.waiting ≡ true
        → let out = after_wait p echo net lru cfg r client w g in
          (is_handled out.1 ≡ (
            (not w.is_late && ltb 0 (w.meanwhile g).limiter.slots)
            && (address_ok cfg r client && key_ok cfg r)))
          × Consistent out.0.cache
    unfolding after_wait step
    after_wait_lem w g W ok here =
        let there = W.waits_on g here in
        let ok' = W.agrees g ok in
        elim (Bool-cases w.is_late) [
          | inl e ↦ rw (e, after_wait) (refl, ok')
          | inr e ↦
              rw (e, after_wait)
                (rw (there, after_wait)
                  (elim (Bool-cases (ltb 0 (w.meanwhile g).limiter.slots)) [
                    | inr none_free ↦ rw (none_free, after_wait) (refl, ok')
                    | inl free ↦
                        let g' = record (w.meanwhile g) {
                          limiter = granted_limiter (w.meanwhile g).limiter;
                        } in
                        let parts = with_slot_lem queued_done g' ok' in
                        rw (free, after_wait) (parts.0, parts.1)
                  ]))
        ]

    admit-waits :
        (g : Gate E C)
        → ltb 0 g.limiter.slots ≡ false
        → ltb g.limiter.backlog g.limiter.max_backlog ≡ true
        → admit g.limiter ≡ ((in_backlog g).limiter, waits)
    unfolding admit
    admit-waits g none_free place = rw (none_free, admit) (rw (place, admit) refl)

    throttle-waits :
        (w : Wait E C) (g : Gate E C)
        → ltb 0 g.limiter.slots ≡ false
        → ltb g.limiter.backlog g.limiter.max_backlog ≡ true
        → throttle p echo net lru cfg r client w g
          ≡ after_wait p echo net lru cfg r client w (in_backlog g)
    unfolding throttle
    throttle-waits w g none_free place =
        let admitted = admit-waits g none_free place in
        rw (admitted, throttle)
          (ap (λ o. after_wait p echo net lru cfg r client w (record g { limiter = o.0 })) admitted)

    throttle_lem :
        (w : Wait E C) (g : Gate E C)
        → IsWait w
        → Consistent g.cache
        → let out = throttle p echo net lru cfg r client w g in
          (is_handled out.1 ≡ (gets_slot w g && (address_ok cfg r client && key_ok cfg r)))
          × Consistent out.0.cache
          × KeepsSlots g.limiter out
    unfolding throttle admit
    throttle_lem w g W ok = elim (Bool-cases (ltb 0 g.limiter.slots)) [
      | inl e ↦
          let g' = record g { limiter = (admit g.limiter).0 } in
          let parts = with_slot_lem direct_done g' ok in
          rw (e, throttle)
            (parts.0, parts.1, λ sure refused. parts.2 ∙ (rw refused refl) ∙ given_back g.limiter e)
      | inr e ↦ elim (Bool-cases (ltb g.limiter.backlog g.limiter.max_backlog)) [
        | inl place ↦
            let (passed, kept) = after_wait_lem w (in_backlog g) W ok (ground arith) in
            rw (throttle-waits w g e place)
              (rw e (rw place (passed, kept, λ sure refused. absurd (cc sure))))
        | inr full ↦
            rw (e, throttle)
              (rw (full, throttle) (refl, ok, λ sure refused. ground (arith, e, full)))
      ]
    ]

    -- The limiter of Echo, if it is configured.
    abbrev pub rate_ok : E → Bool
    rate_ok e = not (p.is_positive cfg.echo_rate_limit) || (echo.allow e client).1

    -- The state after Echo's limiter, if it is configured.
    abbrev pub allowed : Gate E C → Gate E C
    allowed g =
        if p.is_positive cfg.echo_rate_limit
        then record g { echo = (echo.allow g.echo client).0 }
        else g

    -- With an LRU cache whose entries agree with the address list, whatever is done to the state
    -- while a request waits, if that leaves the request in the backlog and the cache agreeing: a
    -- request reaches its handler exactly if the server is not shutting down, Echo's limiter is
    -- off or lets it pass, a slot of the throttle is free, or there is a place in the backlog and
    -- a slot is free when the wait ends, which is not by its timeout, its address or path is let
    -- in by the address list or there is no list, it is no preflight request, and authentication
    -- is off or the key check passes. The cache still agrees afterwards, and a request that is
    -- refused without a wait leaves the throttle as it was.
    pub arrive_lem :
        (h : ShutdownHandler) (w : Wait E C) (g : Gate E C)
        → IsWait w
        → Consistent g.cache
        → let out = arrive p echo net lru cfg h r client w g in
          (is_handled out.1 ≡ (
            not (is_shutting_down h)
            && (rate_ok g.echo
                && (gets_slot w (allowed g) && (address_ok cfg r client && key_ok cfg r)))))
          × Consistent out.0.cache
          × KeepsSlots g.limiter out
    unfolding arrive
    arrive_lem h w g W ok = elim (Bool-cases (is_shutting_down h)) [
      | inl e ↦ rw (e, arrive) (refl, ok, λ sure refused. refl)
      | inr e ↦
          rw (e, arrive)
            (elim (Bool-cases (p.is_positive cfg.echo_rate_limit)) [
              | inr off ↦ rw (off, arrive) (throttle_lem w g W ok)
              | inl on ↦
                  rw (on, arrive)
                    (elim (Bool-cases (echo.allow g.echo client).1) [
                      | inl a ↦
                          rw (a, arrive)
                            (throttle_lem w (record g { echo = (echo.allow g.echo client).0 }) W ok)
                      | inr a ↦ rw (a, arrive) (refl, ok, λ sure refused. refl)
                    ])
            ])
    ]
