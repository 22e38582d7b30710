-- ===== src/Stream.antt =====
-- internal/stream/handler.go: the HTTP file handler.
pub mod Body
pub mod Vault
pub mod Serving
