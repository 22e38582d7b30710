-- ===== src/Store/Files/Steps.antt =====
-- internal/store/store.go: all the calls on the files together.
use thunder_go.Prelude.{ℕ}
use thunder_go.Prelude.Text.{Text}
use thunder_go.Store.{FileRecord}
use thunder_go.Store.Files.{
  Collection, Files, insert_file, find_file_by_key, find_file_by_hash, replace_file,
  delete_file_by_hash, increment_reuse_count,
}
use thunder_go.Store.Files.Calls.{
  insert_file-Current, replace_file-Current, find_file_by_key-Current, find_file_by_hash-Current,
}
use thunder_go.Store.Files.Deletes.{delete_file_by_hash-Current, increment_reuse_count-Current}
use thunder_go.Store.Files.Current.{Current}
use thunder_go.Store.Files.Honest.{View, IsNamed, Honest}

-- A call on the files, with the time at which the caches are read and written.
pub data Call : Type 0 where
  inserts replaces : ℕ → FileRecord → Call
  finds_by_key finds_by_hash deletes : ℕ → Text → Call
  counts : Text → Call

-- The state after the call.
pub after_call : {S : Type 0} → Collection S → Call → Files S → Files S
after_call db (inserts now f) st = (insert_file db now f st).1
after_call db (replaces now f) st = (replace_file db now f st).1
after_call db (finds_by_key now k) st = (find_file_by_key db now k st).1
after_call db (finds_by_hash now k) st = (find_file_by_hash db now k st).1
after_call db (deletes now k) st = (delete_file_by_hash db now k st).1
after_call db (counts k) st = (increment_reuse_count db k st).1

-- A record that is written has a key and a hash.
abbrev pub WritesNamed : Call → Type 0
WritesNamed (inserts now f) = IsNamed f
WritesNamed (replaces now f) = IsNamed f
WritesNamed (finds_by_key now k) = Unit
WritesNamed (finds_by_hash now k) = Unit
WritesNamed (deletes now k) = Unit
WritesNamed (counts k) = Unit

-- With a collection that has one record for a key and for a hash, whose FindOne returns it, that acts
-- on the records that a call names alone, whether or not it returns an error, and in which every
-- record has a key and a hash that are not empty: every call on the files, its errors included, that
-- writes only a record with a key and a hash that are not empty, leaves the collection so, and leaves
-- in both caches only records that the collection has, up to their counts and times.
pub after_call-Current :
    {S : Type 0} (db : Collection S) (v : View S)
    → Honest db v
    → (call : Call) (st : Files S) → WritesNamed call
    → Current db v st
    → Current db v (after_call db call st)
unfolding after_call
after_call-Current db v h (inserts now f) st n cur = insert_file-Current db v h now f st n cur
after_call-Current db v h (replaces now f) st n cur = replace_file-Current db v h now f st n cur
after_call-Current db v h (finds_by_key now k) st n cur =
    find_file_by_key-Current db v h now k st cur
after_call-Current db v h (finds_by_hash now k) st n cur =
    find_file_by_hash-Current db v h now k st cur
after_call-Current db v h (deletes now k) st n cur = delete_file_by_hash-Current db v h now k st cur
after_call-Current db v h (counts k) st n cur = increment_reuse_count-Current db v h k st cur
