-- ===== src/Ingest/Run/Follows.antt =====
-- internal/ingest/ingest.go: the events of a call of `Ingest`.
use thunder_go.Prelude.{ℕ, ◌≤◌, ◌≡◌, some, List, []}
use thunder_go.Ingest.{Event, Result}
use thunder_go.Ingest.Protocol.{Holding, ledger, run, kept}
use thunder_go.Prelude.Text.{Text}

-- From an empty vault and back to the same locks, with at most three calls of Forward; what is in the
-- vault and not asked to be deleted is what the result says.
abbrev pub Follows : Holding → Result × List Event → Type 0
Follows h r =
    (tries : ℕ) × (tries ≤ 3) × (run r.1 (ledger h [] 0) ≡ some (ledger h (kept r.0) tries))
