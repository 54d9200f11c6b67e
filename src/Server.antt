-- ===== src/Server.antt =====
-- The server around the storage: its shutdown by signals (cmd/server/main.go, pkg/tls/autotls.go) and the
-- order of its middleware (pkg/middleware/setup.go).
pub mod Signals
pub mod Pipeline
