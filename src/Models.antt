-- ===== src/Models.antt =====
-- pkg/models: the data that the server stores, and the rules of expiry.
pub mod Content
