-- ===== src/Middleware.antt =====
-- pkg/middleware: what a request passes before it reaches a handler.
pub mod Auth
pub mod IpAllowlist
pub mod Throttle
