-- ===== src/Server/Signals/Endings.antt =====
-- How the server of cmd/server/main.go and pkg/tls/autotls.go ends.
use content_storage_server.Prelude.{
  ℕ, ◌+◌, ◌-◌, ◌<◌, sym, Bool-cases, inl, inr, true, false, ◌≡◌, refl, ap, ◌∙◌, Bool, ◌||◌, Option,
  none, some, List, [], ◌∷◌, arith, leb, if◌then◌else◌,
}
use content_storage_server.Handlers.Http.{Response}
use content_storage_server.Handlers.Shutdown.{
  ShutdownHandler, new_shutdown_handler, initiate_shutdown, is_shutting_down, middleware,
  shutdown_response,
}
use content_storage_server.Server.Signals.{
  Signal, interrupt, terminate, user1, Ending, graceful, emergency, second_signal, on_signal,
  next_signal, await, Fate, running, returned, exited, Store, stop_with, serve_http, serve_tls,
  perform_emergency_server_shutdown, perform_emergency_tls_shutdown,
}

-- What follows a first signal at the time `t`, when its own SIGTERM is taken `delay` after 3 s: another
-- one within 3 s, or SIGUSR1 before that SIGTERM, is an emergency, and everything else is not.
abbrev pub by_second : ℕ → ℕ → List (Signal × ℕ) → Ending
by_second delay t [] = graceful
by_second delay t ((user1, u) ∷ rest) =
    if leb u (t + 3000000000 + delay) then emergency else graceful
by_second delay t ((interrupt, u) ∷ rest) = if leb (u - t) 3000000000 then emergency else graceful
by_second delay t ((terminate, u) ∷ rest) = if leb (u - t) 3000000000 then emergency else graceful

abbrev pub expected : ℕ → List (Signal × ℕ) → Option Ending
expected delay [] = none
expected delay ((user1, t) ∷ rest) = some emergency
expected delay ((interrupt, t) ∷ rest) = some (by_second delay t rest)
expected delay ((terminate, t) ∷ rest) = some (by_second delay t rest)

second-graceful :
    (delay t : ℕ) → 0 < delay → second_signal (t + 3000000000 + delay) (some t) ≡ some graceful
unfolding second_signal
second-graceful delay t late = ground (arith, late)

next-by_second :
    (delay t : ℕ) (rest : List (Signal × ℕ))
    → 0 < delay
    → let (sig, now) = next_signal delay t rest in
      on_signal (some t) sig now ≡ some (by_second delay t rest)
unfolding next_signal on_signal
next-by_second delay t [] late = second-graceful delay t late
next-by_second delay t ((sig, u) ∷ rest) late = elim (Bool-cases (leb u (t + 3000000000 + delay))) [
  | inl early ↦ rw (early, next_signal) (taken sig early)
  | inr over ↦
      rw (over, next_signal) (second-graceful delay t late ∙ ap some (sym (passed sig over)))
]
  where
    taken :
        (x : Signal)
        → leb u (t + 3000000000 + delay) ≡ true
        → on_signal (some t) x u ≡ some (by_second delay t ((x, u) ∷ rest))
    taken user1 early = rw early refl
    taken interrupt early = unfold second_signal in refl
    taken terminate early = unfold second_signal in refl

    passed :
        (x : Signal)
        → leb u (t + 3000000000 + delay) ≡ false
        → by_second delay t ((x, u) ∷ rest) ≡ graceful
    passed user1 over = rw over refl
    passed interrupt over = ground (arith, over)
    passed terminate over = ground (arith, over)

await-expected :
    (delay : ℕ) (h : ShutdownHandler) (signals : List (Signal × ℕ))
    → 0 < delay
    → (await delay h signals).1 ≡ expected delay signals
unfolding await on_signal second_signal
await-expected delay h [] late = refl
await-expected delay h ((user1, t) ∷ rest) late = refl
await-expected delay h ((interrupt, t) ∷ rest) late = next-by_second delay t rest late
await-expected delay h ((terminate, t) ∷ rest) late = next-by_second delay t rest late

await-sets :
    (delay : ℕ) (sig : Signal) (now : ℕ) (rest : List (Signal × ℕ))
    → (await delay new_shutdown_handler ((sig, now) ∷ rest)).0.shutdown_state ≡ 1
unfolding await on_signal second_signal initiate_shutdown new_shutdown_handler
await-sets delay user1 now rest = refl
await-sets delay interrupt now rest = refl
await-sets delay terminate now rest = refl

module _ {S : Type 0} (store : Store S) where
  abbrev pub emergency_code : Bool → S → ℕ
  emergency_code close_fails s = if (store.emergency_shutdown s).1 || close_fails then 1 else 0

  -- The storage and the process, when an emergency exits with the code.
  abbrev pub outcome : ℕ → S → Option Ending → S × Fate
  outcome code s none = (s, running)
  outcome code s (some graceful) = (store.close s, returned)
  outcome code s (some emergency) = ((store.emergency_shutdown s).0, exited code)

  http-outcome :
      (close_fails : Bool) (s : S) (e : Option Ending)
      → stop_with store (perform_emergency_server_shutdown store close_fails) e s
        ≡ outcome (emergency_code close_fails s) s e
  unfolding stop_with perform_emergency_server_shutdown
  http-outcome close_fails s none = refl
  http-outcome close_fails s (some graceful) = refl
  http-outcome close_fails s (some emergency) = refl

  tls-outcome :
      (close_fails : Bool) (s : S) (e : Option Ending)
      → stop_with store (perform_emergency_tls_shutdown store close_fails) e s ≡ outcome 1 s e
  unfolding stop_with perform_emergency_tls_shutdown
  tls-outcome close_fails s none = refl
  tls-outcome close_fails s (some graceful) = refl
  tls-outcome close_fails s (some emergency) = refl

  -- Whatever signals come from outside, by HTTP and by TLS, if the SIGTERM that the process sends
  -- itself 3 s after the first one is taken at a positive delay: without a signal the server runs
  -- on. If the first signal is SIGUSR1, or the next one is SIGUSR1 and is not later than the own
  -- SIGTERM, or the next one comes within 3 s of the first, the storage is shut down in an
  -- emergency and the process exits, with 1 by TLS, and by HTTP with 0 if neither the storage nor
  -- the listener reports an error. Otherwise, and so after one signal alone, the storage is
  -- closed and main returns.
  pub serve_lem :
      (delay : ℕ) (close_fails : Bool) (signals : List (Signal × ℕ)) (s : S)
      → 0 < delay
      → ((serve_http store delay close_fails signals s).1
          ≡ outcome (emergency_code close_fails s) s (expected delay signals))
        × ((serve_tls store delay close_fails signals s).1 ≡ outcome 1 s (expected delay signals))
  unfolding serve_http serve_tls
  serve_lem delay close_fails signals s late = (
    http-outcome close_fails s (await delay new_shutdown_handler signals).1
        ∙ ap (outcome (emergency_code close_fails s) s)
            (await-expected delay new_shutdown_handler signals late),
    tls-outcome close_fails s (await delay new_shutdown_handler signals).1
        ∙ ap (outcome 1 s) (await-expected delay new_shutdown_handler signals late),
  )

  -- Once a signal has come, whichever and whatever follows, the middleware answers every request
  -- with the response of a server that shuts down, and does not call the handler, by HTTP and by
  -- TLS.
  pub serve-refuses {ℓ} :
      {T : Type ℓ} (delay : ℕ) (close_fails : Bool) (sig : Signal) (now : ℕ)
      (rest : List (Signal × ℕ)) (s : S) (handler : T → T × Response) (t : T)
      → (middleware (serve_http store delay close_fails ((sig, now) ∷ rest) s).0 handler t
          ≡ (t, shutdown_response))
        × (middleware (serve_tls store delay close_fails ((sig, now) ∷ rest) s).0 handler t
            ≡ (t, shutdown_response))
  unfolding serve_http serve_tls middleware is_shutting_down
  serve-refuses delay close_fails sig now rest s handler t =
      rw (await-sets delay sig now rest) (refl, refl)
