-- ===== src/Ingest/Locking.antt =====
-- internal/ingest/ingest.go: `Ingest` acquires the ingest lock of the database, with two retries.
pub mod Follows
pub mod Verified
use thunder_go.Prelude.{ℕ, zero, suc, Option, some, List, [], ◌∷◌, ◌++◌, if◌then◌else◌}
use thunder_go.Ingest.{
  World, Event, Result, error, lock_failed, not_locked, cancelled, Seen, answer, absent, stale,
  waiting, acquires, look,
}
use thunder_go.Prelude.Text.{Text}
use thunder_go.Store.{FileRecord}
use thunder_go.Store.IngestLock.{Acquired}

-- The lock, with the stale record if there is one, or the end.
pub data Waited : Type 0 where
  got : Option FileRecord → Waited
  ended : Result → Waited

module _ (w : World) (key : Text) where
  after_lock :
      (Option FileRecord → Waited × List Event) → Option FileRecord → Acquired → Waited × List Event
  after_lock retry old Acquired.acquired = (got old, acquires key ∷ [])
  after_lock retry old Acquired.held = retry old
  after_lock retry old Acquired.error = (ended (error lock_failed), [])

  after_look :
      (Option FileRecord → Waited × List Event)
      → ℕ
      → Option FileRecord
      → Seen × List Event
      → Waited × List Event
  unfolding after_lock
  after_look retry n old (answer r, es) = (ended r, es)
  after_look retry n old (absent, es) =
      let (x, fs) = after_lock retry old (w.lock n) in (x, es ++ fs)
  after_look retry n old (stale rec, es) =
      let (x, fs) = after_lock retry (some rec) (w.lock n) in (x, es ++ fs)

  -- The attempts that are left, those made, and the stale record.
  pub wait_loop : ℕ → ℕ → Option FileRecord → Waited × List Event
  unfolding after_look
  wait_loop zero attempt old = (ended (error not_locked), [])
  wait_loop (suc left) attempt old =
      let rest =
        after_look (wait_loop left (suc attempt)) (suc attempt) old
          (look w key (waiting attempt)) in
      if w.pause attempt then rest else (ended (error cancelled), [])

  pub acquire : Option FileRecord → Waited × List Event
  unfolding after_lock wait_loop
  acquire old = after_lock (wait_loop 2 0) old (w.lock 0)
