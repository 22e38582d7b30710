-- ===== src/Store/IngestLock.antt =====
-- internal/store/store.go: the cross-process ingest lock. The MongoDB collection is a parameter; its
-- documents are the locks, each with the time at which it expires. A process that has found an
-- expired lock goes on in `take_over`, and another process may act in between.
pub mod Exclusive
use thunder_go.Prelude.{
  ℕ, zero, suc, ◌+◌, ◌-◌, ◌*◌, ◌/◌, ◌%◌, ◌^◌, ◌≤◌, ◌<◌, min, max, ◌≡◌, refl, sym, ap, ◌∙◌, subst,
  ◌≢◌, ◌↔◌, ◌⊎◌, inl, inr, Bool, true, false, not, ◌&&◌, ◌||◌, Option, none, some, List, [], ◌∷◌,
  ◌++◌, map, append-nil, append_assoc, arith, length, get_elem?, set, take, drop, length-append,
  length-take, length-drop, All, All-append, All-map, All_at, get_elem?-append,
  get_elem?-append_length, ltb, leb, ◌==◌, if◌then◌else◌, tests, leb→le, le→leb, leb-false→lt,
  ltb→lt, lt→ltb, ltb-false→le, Bool-cases, Option-cases,
}
use thunder_go.Prelude.Text.{Text}

-- `InsertOne`: done, refused since the identifier is taken, or another error.
pub data Insert : Type 0 where
  inserted duplicate failed : Insert

pub record Locks (S : Type 0) : Type 0 where
  -- `InsertOne` of the lock of a key that expires at a time
  pub insert_one : Text → ℕ → S → Insert × S
  -- `FindOne`: an error, no lock, or the time at which it expires
  pub find_one : Text → S → Option (Option ℕ)
  -- `DeleteOne`: whether there was no error
  pub delete_one : Text → S → Bool × S

-- (true, nil), (false, nil) and (false, err).
pub data Acquired : Type 0 where
  acquired held error : Acquired

of_insert : Insert → Acquired
of_insert inserted = acquired
of_insert duplicate = held
of_insert failed = error

module _ {S : Type 0} (db : Locks S) where
  insert_again : Text → ℕ → Bool × S → Acquired × S
  unfolding of_insert
  insert_again key expires (false, s) = (held, s)
  insert_again key expires (true, s) =
      let (r, s') = db.insert_one key expires s in (of_insert r, s')

  -- What a process does once it has found the lock expired.
  pub take_over : Text → ℕ → S → Acquired × S
  unfolding insert_again
  take_over key expires s = insert_again key expires (db.delete_one key s)

  after_find : Text → ℕ → ℕ → S → Option (Option ℕ) → Acquired × S
  unfolding take_over
  after_find key now expires s none = (held, s)
  after_find key now expires s (some none) = (held, s)
  after_find key now expires s (some (some time)) =
      if ltb time now then take_over key expires s else (held, s)

  after_insert : Text → ℕ → ℕ → Insert × S → Acquired × S
  unfolding after_find
  after_insert key now expires (inserted, s) = (acquired, s)
  after_insert key now expires (failed, s) = (error, s)
  after_insert key now expires (duplicate, s) = after_find key now expires s (db.find_one key s)

  unfoldable pub acquire_ingest_lock : Text → ℕ → ℕ → S → Acquired × S
  unfolding after_insert
  acquire_ingest_lock key now ttl s =
      after_insert key now (now + ttl) (db.insert_one key (now + ttl) s)

  -- Whether there was no error.
  unfoldable pub release_ingest_lock : Text → S → Bool × S
  release_ingest_lock key s = db.delete_one key s
