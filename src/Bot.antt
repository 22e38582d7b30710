-- ===== src/Bot.antt =====
-- internal/bot: the Telegram bot. What the database and Telegram answer while a message is handled
-- is a parameter; a handler is an effect, with what it needs to know.
pub mod Commands
pub mod Preflight
pub mod Dispatch
pub mod Slots
pub mod Start
pub mod Links
pub mod Bans
