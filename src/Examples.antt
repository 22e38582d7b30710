-- ===== src/Examples.antt =====
-- The theorems at concrete inputs.
pub mod Streaming
pub mod Limits
pub mod Clients
pub mod Caches
pub mod Bans
pub mod Texts
pub mod Links
pub mod Settings
pub mod Locking
pub mod Admitting
pub mod Ingesting
pub mod Filing
pub mod Tokens
pub mod Starting
pub mod Batches
pub mod Banning
