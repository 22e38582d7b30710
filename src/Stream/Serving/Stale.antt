-- ===== src/Stream/Serving/Stale.antt =====
-- internal/stream/handler.go: what `ServeHTTP` writes to the store.
use thunder_go.Prelude.{ℕ, ◌≡◌, ◌⊎◌, some, List, [], ◌∷◌}
use thunder_go.Pool.{Pool}
use thunder_go.Prelude.Text.{Text, codes}
use thunder_go.Store.{FileRecord}
use thunder_go.Stream.Serving.{Backend, Request, Call, increment_seen_count, delete_file_by_hash}
use thunder_go.Stream.Vault.{
  VaultError, message_missing, message_no_media, record_mismatch, code_response, rpc, other,
  unresolved, resolve_vault_media,
}

-- The errors that say that the media is gone for good; no other error and no time limit does.
abbrev pub IsGone : VaultError → Type 0
IsGone message_missing = Unit
IsGone message_no_media = Unit
IsGone record_mismatch = Unit
IsGone (code_response m) = (m ≡ codes "MESSAGE_ID_INVALID") ⊎ (m ≡ codes "MESSAGE_DELETED")
IsGone (rpc m) = (m ≡ codes "MESSAGE_ID_INVALID") ⊎ (m ≡ codes "MESSAGE_DELETED")
IsGone other = ⊥

module _ (b : Backend) where
  -- A record is deleted only if the lookup of its vault message ends with such an error.
  abbrev pub Deletes : Request → FileRecord → List Call → Type 0
  Deletes r rec calls =
      (calls ≡ [])
      ⊎ ((client : ℕ) × (e : VaultError) × (resolve_vault_media b.has_ingester (b.lookup client rec)
              rec
            ≡ unresolved e)
          × (IsGone e)
          × (calls ≡ delete_file_by_hash r.token ∷ []))

  -- The writes of a request: none; or the count of a record that was found, and perhaps its deletion.
  abbrev pub Writes : Request → List Call → Type 0
  Writes r calls =
      (calls ≡ [])
      ⊎ ((rec : FileRecord) × (more : List Call) × (b.find_file r.token ≡ some (some rec))
          × (calls ≡ increment_seen_count rec.file_key ∷ more)
          × Deletes r rec more)
