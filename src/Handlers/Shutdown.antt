-- ===== src/Handlers/Shutdown.antt =====
-- internal/handlers/shutdown.go: once the flag is set, every request is refused.
use content_storage_server.Prelude.{ℕ, Bool, false, ◌==◌, bytes, if◌then◌else◌}
use content_storage_server.Handlers.Http.{Response, shutting_down}

-- `shutdown_state` is the atomic flag `isShuttingDown`.
pub record ShutdownHandler : Type 0 where
  pub shutdown_state : ℕ

unfoldable pub new_shutdown_handler : ShutdownHandler
new_shutdown_handler = record { shutdown_state = 0 }

-- A compare and swap of 0 for 1.
unfoldable pub initiate_shutdown : ShutdownHandler → ShutdownHandler
initiate_shutdown h = if h.shutdown_state == 0 then record { shutdown_state = 1 } else h

unfoldable pub is_shutting_down : ShutdownHandler → Bool
is_shutting_down h = h.shutdown_state == 1

-- Its body holds `error` and `code`; the timestamp is left out, and there is no field `success`.
abbrev pub shutdown_response : Response
shutdown_response = record {
  status = 503;
  success = false;
  message = bytes "The server is currently shutting down and cannot accept new requests";
  body = shutting_down (bytes "Server is shutting down") (bytes "SERVER_SHUTTING_DOWN");
}

-- The middleware around `next`, which takes the state of the rest of the server.
unfoldable pub middleware {ℓ} :
    {S : Type ℓ} → ShutdownHandler → (S → S × Response) → S → S × Response
unfolding is_shutting_down
middleware h next s = if is_shutting_down h then (s, shutdown_response) else next s
