-- ===== src/Ingest/Locking/Verified.antt =====
-- internal/ingest/ingest.go: a result that comes before the ingest lock is acquired.
use thunder_go.Prelude.{ℕ, zero, suc, inl, inr, Option, some, List, Bool-cases}
use thunder_go.Ingest.{World, Event, Seen, answer, absent, stale, waiting}
use thunder_go.Ingest.Locking.{Waited, got, ended, after_lock, after_look, wait_loop, acquire}
use thunder_go.Ingest.Verified.{IsVerified, FindsKey, SeenVerified, look-Verified}
use thunder_go.Prelude.Text.{Text}
use thunder_go.Store.{FileRecord}
use thunder_go.Store.IngestLock.{Acquired}

abbrev pub WaitedVerified : World → Text → Waited → Type 0
WaitedVerified w key (got old) = Unit
WaitedVerified w key (ended r) = IsVerified w key r

module _ (w : World) (key : Text) where
  after_lock-Verified :
      (retry : Option FileRecord → Waited × List Event) (old : Option FileRecord) (a : Acquired)
      → ((o : Option FileRecord) → WaitedVerified w key (retry o).0)
      → WaitedVerified w key (after_lock w key retry old a).0
  unfolding after_lock
  after_lock-Verified retry old Acquired.acquired h = tt
  after_lock-Verified retry old Acquired.held h = h old
  after_lock-Verified retry old Acquired.error h = tt

  after_look-Verified :
      (retry : Option FileRecord → Waited × List Event) (n : ℕ) (old : Option FileRecord)
      (s : Seen × List Event)
      → ((o : Option FileRecord) → WaitedVerified w key (retry o).0)
      → SeenVerified w key s.0
      → WaitedVerified w key (after_look w key retry n old s).0
  unfolding after_look
  after_look-Verified retry n old (answer r, es) h k = k
  after_look-Verified retry n old (absent, es) h k = after_lock-Verified retry old (w.lock n) h
  after_look-Verified retry n old (stale rec, es) h k =
      after_lock-Verified retry (some rec) (w.lock n) h

  wait_loop-Verified :
      (left attempt : ℕ) (old : Option FileRecord)
      → FindsKey w key
      → WaitedVerified w key (wait_loop w key left attempt old).0
  unfolding wait_loop
  wait_loop-Verified zero attempt old h = tt
  wait_loop-Verified (suc left) attempt old h = elim (Bool-cases (w.pause attempt)) [
    | inl e ↦ rw e (
        after_look-Verified (wait_loop w key left (suc attempt)) (suc attempt) old _
          (λ o. wait_loop-Verified left (suc attempt) o h)
          (look-Verified w key (waiting attempt) h))
    | inr e ↦ rw e tt
  ]

  pub acquire-Verified :
      (old : Option FileRecord) → FindsKey w key → WaitedVerified w key (acquire w key old).0
  unfolding acquire
  acquire-Verified old h =
      after_lock-Verified (wait_loop w key 2 0) old (w.lock 0) (λ o. wait_loop-Verified 2 0 o h)
