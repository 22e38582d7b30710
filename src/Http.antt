-- ===== src/Http.antt =====
-- internal/http/server.go: the HTTP gateway, without the router, which is the chi library.
pub mod Redact
pub mod Pages
