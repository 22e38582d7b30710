-- ===== src/Examples/Locking.antt =====
-- A collection of locks as an association list.
use thunder_go.Prelude.{ℕ, refl, true, Option, none, some, List, [], ◌∷◌}
use thunder_go.Prelude.Dict.{lookup, insert, remove, lookup-insert_self, lookup-remove}
use thunder_go.Prelude.Text.{Text, codes}
use thunder_go.Prelude.Text.Laws.{text_eq_refl}
use thunder_go.Store.IngestLock.{Insert, inserted, duplicate, Locks, take_over, acquire_ingest_lock}
use thunder_go.Store.IngestLock.Exclusive.{
  IsLocks, Gets, Outcome, take_over_twice, acquire_ingest_lock-Outcome,
}

insert_unless : Text → ℕ → List (Text × ℕ) → Option ℕ → Insert × List (Text × ℕ)
insert_unless key expires s none = (inserted, insert key expires s)
insert_unless key expires s (some time) = (duplicate, s)

abbrev lock_of : List (Text × ℕ) → Text → Option ℕ
lock_of s key = lookup key s

listed_locks : Locks (List (Text × ℕ))
unfolding insert_unless
listed_locks = record {
  insert_one = λ key expires s. insert_unless key expires s (lookup key s);
  find_one = λ key s. some (lookup key s);
  delete_one = λ key s. (true, remove key s);
}

listed-IsLocks : IsLocks listed_locks lock_of
unfolding listed_locks insert_unless
listed-IsLocks = record {
  inserts = λ key expires s h. rw h (refl, lookup-insert_self key expires s);
  duplicates = λ key expires time s h. rw h;
  finds = λ key s. refl;
  deletes = λ key s. (refl, rw (lookup-remove key key s, text_eq_refl key));
}

abbrev old_lock : List (Text × ℕ)
old_lock = (codes "key", 10) ∷ []

take_over_twice_example :
    Gets listed_locks lock_of listed-IsLocks
      (codes "key")
      80
      (take_over listed_locks (codes "key") 80 old_lock)
    × Gets listed_locks lock_of listed-IsLocks (codes "key") 81 (
        take_over listed_locks
          (codes "key")
          81
          (take_over listed_locks (codes "key") 80 old_lock).1)
take_over_twice_example =
    take_over_twice listed_locks lock_of listed-IsLocks (codes "key") 80 81 old_lock

acquire_ingest_lock-Outcome_example :
    Outcome listed_locks lock_of listed-IsLocks
      (codes "key")
      20
      60
      old_lock
      (lock_of old_lock (codes "key"))
      (acquire_ingest_lock listed_locks (codes "key") 20 60 old_lock)
acquire_ingest_lock-Outcome_example =
    acquire_ingest_lock-Outcome listed_locks lock_of listed-IsLocks (codes "key") 20 60 old_lock
