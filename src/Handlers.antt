-- ===== src/Handlers.antt =====
-- internal/handlers: what a request must be before it reaches the storage, and what it is answered.
pub mod Validation
pub mod Http
pub mod Errors
pub mod Content
pub mod Shutdown
pub mod Maintenance
