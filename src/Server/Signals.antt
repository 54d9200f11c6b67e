-- ===== src/Server/Signals.antt =====
-- The wait for signals and the two ways to stop, of cmd/server/main.go and pkg/tls/autotls.go. The
-- signals from outside come with the times at which they are taken. Listening and the shutdown of the
-- listener are arguments.
pub mod Endings
use content_storage_server.Prelude.{
  ℕ, ◌+◌, ◌-◌, Bool, true, false, ◌||◌, Option, none, some, List, [], ◌∷◌, Bytes, bytes, is_empty,
  leb, ◌++◌, if◌then◌else◌,
}
use content_storage_server.Handlers.Shutdown.{
  ShutdownHandler, new_shutdown_handler, initiate_shutdown,
}
use content_storage_server.Config.{Config}

pub data Signal : Type 0 where
  interrupt terminate user1 : Signal

pub data Ending : Type 0 where
  graceful emergency : Ending

-- 3 s in nanoseconds.
unfoldable pub second_signal : ℕ → Option ℕ → Option Ending
second_signal now none = none
second_signal now (some first) = some (if leb (now - first) 3000000000 then emergency else graceful)

-- One signal at the time `now`, when the first of the others came at `first`; none if the wait goes on.
unfoldable pub on_signal : Option ℕ → Signal → ℕ → Option Ending
unfolding second_signal
on_signal first user1 now = some emergency
on_signal first interrupt now = second_signal now first
on_signal first terminate now = second_signal now first

-- The signal that is taken after a first one at the time `first`: the next from outside, or the SIGTERM
-- that the goroutine sends itself 3 s after the first, and that is taken `delay` later, if that is
-- earlier. The buffer of two has room for it unless another one is taken before it.
unfoldable pub next_signal : ℕ → ℕ → List (Signal × ℕ) → Signal × ℕ
next_signal delay first [] = (terminate, first + 3000000000 + delay)
next_signal delay first ((sig, now) ∷ rest) =
    if leb now (first + 3000000000 + delay)
    then (sig, now)
    else (terminate, first + 3000000000 + delay)

-- The loop, which ends with its second round at the latest; the first element of the result is the
-- flag that refuses requests.
unfoldable pub await : ℕ → ShutdownHandler → List (Signal × ℕ) → ShutdownHandler × Option Ending
unfolding on_signal initiate_shutdown next_signal
await delay h [] = (h, none)
await delay h ((sig, now) ∷ rest) =
    let h' = initiate_shutdown h in
    elim (on_signal none sig now) [
      | some e ↦ (h', some e)
      | none ↦
          let (sig2, now2) = next_signal delay now rest in
          (initiate_shutdown h', on_signal (some now) sig2 now2)
    ]

-- What the process comes to: it runs, `main` returns, or it exits with a code.
pub data Fate : Type 0 where
  running returned : Fate
  exited : ℕ → Fate

-- The storage as main sees it: the emergency shutdown, with whether it failed, and the close.
pub record Store (S : Type 0) : Type 0 where
  pub emergency_shutdown : S → S × Bool
  pub close : S → S

module _ {S : Type 0} (store : Store S) where
  -- `performEmergencyServerShutdown`; `close_fails` is whether the listener reports an error.
  unfoldable pub perform_emergency_server_shutdown : Bool → S → S × Fate
  perform_emergency_server_shutdown close_fails s =
      let (s', failed) = store.emergency_shutdown s in
      (s', exited (if failed || close_fails then 1 else 0))

  -- `performEmergencyTLSShutdown`.
  unfoldable pub perform_emergency_tls_shutdown : Bool → S → S × Fate
  perform_emergency_tls_shutdown close_fails s = ((store.emergency_shutdown s).0, exited 1)

  -- The end of main: a return runs the deferred close, an exit does not.
  unfoldable pub stop_with : (S → S × Fate) → Option Ending → S → S × Fate
  stop_with at_once none s = (s, running)
  stop_with at_once (some graceful) s = (store.close s, returned)
  stop_with at_once (some emergency) s = at_once s

  -- `startServerWithShutdown`, from the signals on, within main.
  unfoldable pub serve_http : ℕ → Bool → List (Signal × ℕ) → S → ShutdownHandler × (S × Fate)
  unfolding stop_with await perform_emergency_server_shutdown
  serve_http delay close_fails signals s =
      let (h, e) = await delay new_shutdown_handler signals in
      (h, stop_with (perform_emergency_server_shutdown close_fails) e s)

  -- `StartAutoTLSServerWithShutdown`, likewise.
  unfoldable pub serve_tls : ℕ → Bool → List (Signal × ℕ) → S → ShutdownHandler × (S × Fate)
  unfolding stop_with await perform_emergency_tls_shutdown
  serve_tls delay close_fails signals s =
      let (h, e) = await delay new_shutdown_handler signals in
      (h, stop_with (perform_emergency_tls_shutdown close_fails) e s)

-- `createDirectories`: the directories that it asks for, in order.
unfoldable pub directories : {F : Type 0} → Config F → List Bytes
directories cfg =
    let base = cfg.data_dir ∷ cfg.backup_dir ∷ bytes "./logs" ∷ [] in
    if cfg.enable_tls then base ++ cfg.tls_cache_dir ∷ [] else base

pub data TlsError : Type 0 where
  no_port no_cache_dir empty_hostname : TlsError

unfoldable pub check_hosts : List Bytes → Option TlsError
check_hosts [] = none
check_hosts (h ∷ hs) = let rest = check_hosts hs in if is_empty h then some empty_hostname else rest

unfoldable pub validate_auto_tls_config : {F : Type 0} → Config F → Option TlsError
unfolding check_hosts
validate_auto_tls_config cfg =
    if is_empty cfg.tls_port
    then some no_port
    else if is_empty cfg.tls_cache_dir
    then some no_cache_dir
    else check_hosts cfg.tls_hosts
