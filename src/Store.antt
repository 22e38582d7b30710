-- ===== src/Store.antt =====
-- internal/store/store.go: the records of the database. The server's clock is in nanoseconds.
pub mod Flags
pub mod IngestLock
pub mod TouchBuffer
pub mod Files
pub mod Tokens
pub mod Activations
use thunder_go.Prelude.{ℕ}
use thunder_go.Prelude.Int.{ℤ}
use thunder_go.Prelude.Text.{Text}

pub record FileRecord : Type 0 where
  pub file_key : Text
  pub hash : Text
  pub file_name : Text
  pub mime_type : Text
  pub size : ℤ
  pub media_type : Text
  pub vault_msg_id : ℤ
  pub dc_id : ℤ
  pub created_at : ℕ
  pub last_seen_at : ℕ
  pub seen_count : ℤ
  pub reuse_count : ℤ
  pub first_source_chat_id : ℤ
  pub first_source_msg_id : ℤ
