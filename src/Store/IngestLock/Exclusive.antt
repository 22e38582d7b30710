-- ===== src/Store/IngestLock/Exclusive.antt =====
-- internal/store/store.go: who holds the ingest lock.
use thunder_go.Prelude.{
  ℕ, ◌+◌, ◌≤◌, ◌<◌, ◌≡◌, refl, ap, ◌⊎◌, inl, inr, Bool, true, false, Option, none, some, ltb,
  ltb→lt, ltb-false→le, Bool-cases,
}
use thunder_go.Prelude.Text.{Text}
use thunder_go.Store.IngestLock.{
  Insert, inserted, duplicate, failed, Locks, Acquired, acquired, held, of_insert, insert_again,
  take_over, after_find, after_insert, acquire_ingest_lock,
}

-- How MongoDB behaves as long as it meets no error; `lock s key` is the lock of a key, if any.
pub record IsLocks {S : Type 0} (db : Locks S) (lock : S → Text → Option ℕ) : Type 0 where
  pub inserts :
      (key : Text) (expires : ℕ) (s : S)
      → lock s key ≡ none
      → ((db.insert_one key expires s).0 ≡ inserted)
        × (lock (db.insert_one key expires s).1 key ≡ some expires)
  pub duplicates :
      (key : Text) (expires time : ℕ) (s : S)
      → lock s key ≡ some time
      → db.insert_one key expires s ≡ (duplicate, s)
  pub finds : (key : Text) (s : S) → db.find_one key s ≡ some (lock s key)
  pub deletes :
      (key : Text) (s : S)
      → ((db.delete_one key s).0 ≡ true) × (lock (db.delete_one key s).1 key ≡ none)

module _ {S : Type 0} (db : Locks S) (lock : S → Text → Option ℕ) (laws : IsLocks db lock) where
  -- The process has the lock, until the time.
  abbrev pub Gets : Text → ℕ → Acquired × S → Type 0
  Gets key expires r = (r.0 ≡ acquired) × (lock r.1 key ≡ some expires)

  insert-Gets :
      (key : Text) (expires : ℕ) (s : S)
      → lock s key ≡ none
      → Gets key expires (insert_again db key expires (true, s))
  unfolding insert_again of_insert
  insert-Gets key expires s free =
      let k = laws.inserts key expires s free in (ap of_insert k.0, k.1)

  take_over-Gets :
      (key : Text) (expires : ℕ) (s : S) → Gets key expires (take_over db key expires s)
  unfolding take_over
  take_over-Gets key expires s = go (db.delete_one key s) (laws.deletes key s)
    where
      go :
          (r : Bool × S)
          → ((r.0 ≡ true) × (lock r.1 key ≡ none))
          → Gets key expires (insert_again db key expires r)
      go (false, s') k = cc (k.0)
      go (true, s') k = insert-Gets key expires s' k.1

  -- Two processes that have both found a lock expired both acquire it, as long as MongoDB meets no
  -- error: the second deletes the lock that the first has taken.
  pub take_over_twice :
      (key : Text) (first second : ℕ) (s : S)
      → Gets key first (take_over db key first s)
        × Gets key second (take_over db key second (take_over db key first s).1)
  take_over_twice key first second s =
      (take_over-Gets key first s, take_over-Gets key second (take_over db key first s).1)

  -- What should come of an attempt, from the lock that there is.
  abbrev pub Outcome : Text → ℕ → ℕ → S → Option ℕ → Acquired × S → Type 0
  Outcome key now ttl s none r = Gets key (now + ttl) r
  Outcome key now ttl s (some time) r =
      ((now ≤ time) × (r ≡ (held, s))) ⊎ ((time < now) × Gets key (now + ttl) r)

  after_find-Outcome :
      (key : Text) (now ttl time : ℕ) (s : S)
      → Outcome key now ttl s (some time) (after_find db key now (now + ttl) s (some (some time)))
  unfolding after_find
  after_find-Outcome key now ttl time s = elim (Bool-cases (ltb time now)) [
    | inl e ↦ rw e (inr (ltb→lt _ _ e, take_over-Gets key (now + ttl) s))
    | inr e ↦ rw e (inl (ltb-false→le _ _ e, refl))
  ]

  -- Without another process in between, and as long as MongoDB meets no error, a lock that has not
  -- expired is refused and stays as it is, and one that has expired, or that is not there, is
  -- acquired for the time asked for.
  pub acquire_ingest_lock-Outcome :
      (key : Text) (now ttl : ℕ) (s : S)
      → Outcome key now ttl s (lock s key) (acquire_ingest_lock db key now ttl s)
  unfolding acquire_ingest_lock after_insert
  acquire_ingest_lock-Outcome key now ttl s = go (lock s key) refl
    where
      go :
          (o : Option ℕ)
          → lock s key ≡ o
          → Outcome key now ttl s o (acquire_ingest_lock db key now ttl s)
      go none e = fresh (db.insert_one key (now + ttl) s) (laws.inserts key (now + ttl) s e)
        where
          fresh :
              (r : Insert × S)
              → ((r.0 ≡ inserted) × (lock r.1 key ≡ some (now + ttl)))
              → Gets key (now + ttl) (after_insert db key now (now + ttl) r)
          fresh (inserted, s') k = (refl, k.1)
          fresh (duplicate, s') k = cc (k.0)
          fresh (failed, s') k = cc (k.0)
      go (some time) e =
          rw (laws.duplicates key (now + ttl) time s e, laws.finds key s, e)
            (after_find-Outcome key now ttl time s)
