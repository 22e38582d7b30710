-- ===== src/Ingest/Locking/Follows.antt =====
-- internal/ingest/ingest.go: the events of the attempts at the ingest lock.
use thunder_go.Prelude.{
  ℕ, zero, suc, ◌≡◌, refl, ◌∙◌, inl, inr, Option, some, List, [], ◌++◌, Bool-cases,
}
use thunder_go.Ingest.{World, Event, Seen, answer, absent, stale, waiting}
use thunder_go.Ingest.Locking.{Waited, got, ended, after_lock, after_look, wait_loop, acquire}
use thunder_go.Ingest.Protocol.{mutex, both, ledger, run, run-append, kept, IsLook, look-IsLook}
use thunder_go.Prelude.Text.{Text}
use thunder_go.Store.{FileRecord}
use thunder_go.Store.IngestLock.{Acquired}

-- With the mutex: both locks are held in the end, or nothing has changed.
abbrev pub IsAttempt : Waited × List Event → Type 0
IsAttempt (got old, es) = (t : ℕ) → run es (ledger mutex [] t) ≡ some (ledger both [] t)
IsAttempt (ended r, es) =
    ((t : ℕ) → run es (ledger mutex [] t) ≡ some (ledger mutex [] t)) × (kept r ≡ [])

IsAttempt-after :
    (es : List Event) (r : Waited × List Event)
    → ((t : ℕ) → run es (ledger mutex [] t) ≡ some (ledger mutex [] t))
    → IsAttempt r
    → IsAttempt (r.0, es ++ r.1)
IsAttempt-after es (got old, fs) h k = λ t. run-append es fs _ _ (h t) ∙ k t
IsAttempt-after es (ended r, fs) h k = ((λ t. run-append es fs _ _ (h t) ∙ k.0 t), k.1)

module _ (w : World) (key : Text) where
  after_lock-IsAttempt :
      (retry : Option FileRecord → Waited × List Event) (old : Option FileRecord) (a : Acquired)
      → ((o : Option FileRecord) → IsAttempt (retry o))
      → IsAttempt (after_lock w key retry old a)
  unfolding after_lock run
  after_lock-IsAttempt retry old Acquired.acquired h = λ t. refl
  after_lock-IsAttempt retry old Acquired.held h = h old
  after_lock-IsAttempt retry old Acquired.error h = ((λ t. refl), refl)

  after_look-IsAttempt :
      (retry : Option FileRecord → Waited × List Event) (n : ℕ) (old : Option FileRecord)
      (s : Seen × List Event)
      → ((o : Option FileRecord) → IsAttempt (retry o))
      → IsLook s
      → IsAttempt (after_look w key retry n old s)
  unfolding after_look
  after_look-IsAttempt retry n old (answer r, es) h k = (k.0 [], k.1.1)
  after_look-IsAttempt retry n old (absent, es) h k =
      IsAttempt-after es _ (k.0 []) (after_lock-IsAttempt retry old (w.lock n) h)
  after_look-IsAttempt retry n old (stale rec, es) h k =
      IsAttempt-after es _ (k.0 []) (after_lock-IsAttempt retry (some rec) (w.lock n) h)

  wait_loop-IsAttempt :
      (left attempt : ℕ) (old : Option FileRecord) → IsAttempt (wait_loop w key left attempt old)
  unfolding wait_loop run
  wait_loop-IsAttempt zero attempt old = ((λ t. refl), refl)
  wait_loop-IsAttempt (suc left) attempt old = elim (Bool-cases (w.pause attempt)) [
    | inl e ↦ rw e (
        after_look-IsAttempt (wait_loop w key left (suc attempt)) (suc attempt) old _
          (wait_loop-IsAttempt left (suc attempt)) (look-IsLook w key (waiting attempt)))
    | inr e ↦ rw e ((λ t. refl), refl)
  ]

  pub acquire-IsAttempt : (old : Option FileRecord) → IsAttempt (acquire w key old)
  unfolding acquire
  acquire-IsAttempt old =
      after_lock-IsAttempt (wait_loop w key 2 0) old (w.lock 0) (wait_loop-IsAttempt 2 0)
