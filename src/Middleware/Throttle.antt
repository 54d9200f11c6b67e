-- ===== src/Middleware/Throttle.antt =====
-- pkg/middleware/throttle.go: concurrent requests are limited, and some more may wait. The two
-- channels are counters; a request that has waited gives its place in the backlog back when it ends.
pub mod Invariant
use content_storage_server.Prelude.{
  ℕ, suc, ◌+◌, ◌-◌, Bool, true, false, Option, none, some, List, [], ◌∷◌, ltb, if◌then◌else◌,
}

-- `slots` and `backlog` are the lengths of the two channels. The others count the requests inside the
-- middleware: those that got a slot at once, those that got one after waiting, and those that wait.
pub record RateLimiter : Type 0 where
  pub max_concurrent : ℕ
  pub max_backlog : ℕ
  pub slots : ℕ
  pub backlog : ℕ
  pub direct : ℕ
  pub queued : ℕ
  pub waiting : ℕ

unfoldable pub new_rate_limiter : ℕ → ℕ → RateLimiter
new_rate_limiter max_concurrent max_backlog = record {
  max_concurrent = max_concurrent;
  max_backlog = max_backlog;
  slots = max_concurrent;
  backlog = 0;
  direct = 0;
  queued = 0;
  waiting = 0;
}

pub data Event : Type 0 where
  arrive granted timed_out direct_done queued_done : Event

-- What a request is told: it runs, it waits, or HTTP 429.
pub data Outcome : Type 0 where
  runs waits too_many timeout : Outcome

-- Stages 1 to 3 of the middleware.
unfoldable pub admit : RateLimiter → RateLimiter × Outcome
admit r =
    if ltb 0 r.slots
    then (record r { slots = r.slots - 1; direct = r.direct + 1 }, runs)
    else if ltb r.backlog r.max_backlog
    then (record r { backlog = r.backlog + 1; waiting = r.waiting + 1 }, waits)
    else (r, too_many)

-- One event; none if no request is there for it, or no slot for the one that waits.
unfoldable pub step : RateLimiter → Event → Option (RateLimiter × Outcome)
unfolding admit
step r arrive = some (admit r)
step r granted =
    if ltb 0 r.waiting
    then (if ltb 0 r.slots
        then some
            (record r { slots = r.slots - 1; waiting = r.waiting - 1; queued = r.queued + 1 }, runs)
        else none)
    else none
step r timed_out =
    if ltb 0 r.waiting
    then some (record r { waiting = r.waiting - 1; backlog = r.backlog - 1 }, timeout)
    else none
step r direct_done =
    if ltb 0 r.direct
    then some (record r { direct = r.direct - 1; slots = r.slots + 1 }, runs)
    else none
step r queued_done =
    if ltb 0 r.queued
    then some
        (record r { queued = r.queued - 1; slots = r.slots + 1; backlog = r.backlog - 1 }, runs)
    else none

-- The `current_requests` of `GetStats`.
unfoldable pub current_requests : RateLimiter → ℕ
current_requests r = r.max_concurrent - r.slots

-- An event that cannot happen is passed over.
abbrev pub settle : RateLimiter → Option (RateLimiter × Outcome) → RateLimiter
settle r none = r
settle r (some (r', o)) = r'

unfoldable pub run : RateLimiter → List Event → RateLimiter
unfolding step
run r [] = r
run r (e ∷ es) = run (settle r (step r e)) es
