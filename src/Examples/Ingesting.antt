-- ===== src/Examples/Ingesting.antt =====
-- A file that is new.
use thunder_go.Prelude.{true, false, none, some, [], ◌∷◌}
use thunder_go.Examples.Streaming.{hello_message}
use thunder_go.Ingest.{World, messages}
use thunder_go.Ingest.Run.{ingest}
use thunder_go.Ingest.Run.Follows.{Follows}
use thunder_go.Ingest.Run.Verified.{ingest-IsVerified}
use thunder_go.Ingest.Verified.{IsVerified, FindsKey}
use thunder_go.Store.IngestLock.{Acquired}
use thunder_go.Stream.Vault.{late}
use thunder_go.Tgutil.Media.{file_key}

-- The database has no record, and the forwarded message is the same.
abbrev world : World
world = record {
  primary = true;
  primary_again = true;
  peer_cached = false;
  resolves = λ n. true;
  find_file = λ stage. some none;
  lookup = λ stage rec. late;
  lock = λ n. Acquired.acquired;
  pause = λ n. true;
  backoff = λ n. true;
  forward = λ n. messages (hello_message ∷ []);
  persists = λ rec. true;
  deletes_ok = λ id. true;
  releases_ok = false;
  sha256 = λ t. t;
}

world-FindsKey : FindsKey world (file_key hello_message)
world-FindsKey stage rec h = cc

ingest-IsVerified_example :
    IsVerified world (file_key hello_message) (ingest world 5 (some hello_message)).0
ingest-IsVerified_example = ingest-IsVerified world 5 hello_message world-FindsKey
