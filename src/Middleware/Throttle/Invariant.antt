-- ===== src/Middleware/Throttle/Invariant.antt =====
-- The limits of pkg/middleware/throttle.go hold after every event.
use content_storage_server.Prelude.{
  ℕ, ◌+◌, ◌≤◌, ◌≡◌, ◌∙◌, refl, Option, none, some, List, [], ◌∷◌, arith,
}
use content_storage_server.Middleware.Throttle.{
  RateLimiter, new_rate_limiter, Event, arrive, granted, timed_out, direct_done, queued_done,
  Outcome, step, current_requests, settle, run,
}

pub record IsBalanced (r : RateLimiter) : Type 0 where
  pub slots_used : r.slots + r.direct + r.queued ≡ r.max_concurrent
  pub backlog_used : r.backlog ≡ r.queued + r.waiting
  pub backlog_bound : r.backlog ≤ r.max_backlog

step-IsBalanced :
    (e : Event) (r r' : RateLimiter) (o : Outcome)
    → step r e ≡ some (r', o)
    → IsBalanced r
    → IsBalanced r'
unfolding step
step-IsBalanced arrive r r' o h v = ground (arith, v.slots_used, v.backlog_used, v.backlog_bound)
step-IsBalanced granted r r' o h v = ground (arith, v.slots_used, v.backlog_used, v.backlog_bound)
step-IsBalanced timed_out r r' o h v = ground (arith, v.slots_used, v.backlog_used, v.backlog_bound)
step-IsBalanced direct_done r r' o h v =
    ground (arith, v.slots_used, v.backlog_used, v.backlog_bound)
step-IsBalanced queued_done r r' o h v =
    ground (arith, v.slots_used, v.backlog_used, v.backlog_bound)

step-limits :
    (e : Event) (r r' : RateLimiter) (o : Outcome)
    → step r e ≡ some (r', o)
    → (r'.max_concurrent ≡ r.max_concurrent) × (r'.max_backlog ≡ r.max_backlog)
unfolding step
step-limits arrive r r' o h = ground arith
step-limits granted r r' o h = ground arith
step-limits timed_out r r' o h = ground arith
step-limits direct_done r r' o h = ground arith
step-limits queued_done r r' o h = ground arith

settled :
    (e : Event) (r : RateLimiter) (x : Option (RateLimiter × Outcome))
    → step r e ≡ x
    → IsBalanced r
    → IsBalanced (settle r x)
      × ((settle r x).max_concurrent ≡ r.max_concurrent)
      × ((settle r x).max_backlog ≡ r.max_backlog)
settled e r none h v = (v, refl, refl)
settled e r (some (r', o)) h v =
    let (m, n) = step-limits e r r' o h in (step-IsBalanced e r r' o h v, m, n)

run-IsBalanced :
    (es : List Event) (r : RateLimiter)
    → IsBalanced r
    → IsBalanced (run r es)
      × ((run r es).max_concurrent ≡ r.max_concurrent)
      × ((run r es).max_backlog ≡ r.max_backlog)
unfolding run
run-IsBalanced [] r v = (v, refl, refl)
run-IsBalanced (e ∷ es) r v =
    let (v1, m, n) = settled e r (step r e) refl v in
    let (v2, m', n') = run-IsBalanced es (settle r (step r e)) v1 in (v2, m' ∙ m, n' ∙ n)

-- After any run of events from the start, at most `c` requests are served at once, at most `w` are
-- waiting, a place in the backlog is taken for each that waits or has waited, and the statistics
-- report the number that is served.
pub limits_hold :
    (c w : ℕ) (es : List Event)
    → let r = run (new_rate_limiter c w) es in
      (r.direct + r.queued ≤ c)
      × (r.waiting ≤ w)
      × (r.backlog ≡ r.queued + r.waiting)
      × (current_requests r ≡ r.direct + r.queued)
unfolding new_rate_limiter current_requests
limits_hold c w es =
    let start = new_rate_limiter c w in
    let (v, m, n) = run-IsBalanced es start (record {
      slots_used = omega arith;
      backlog_used = omega arith;
      backlog_bound = omega arith;
    }) in
    (
      omega (arith, v.slots_used, m),
      omega (arith, v.backlog_used, v.backlog_bound, n),
      v.backlog_used,
      omega (arith, v.slots_used),
    )
