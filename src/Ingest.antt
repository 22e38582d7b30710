-- ===== src/Ingest.antt =====
-- internal/ingest/ingest.go: what `Ingest` asks of Telegram and of the store, what it does, and the
-- check of a record that the store has. What they answer, at each point at which the code asks, is
-- a parameter: other processes write to the same database and the same channel.
pub mod Locking
pub mod Forwarding
pub mod Persisting
pub mod Run
pub mod Mutexes
pub mod Source
pub mod Protocol
pub mod Verified
use thunder_go.Prelude.{
  ℕ, zero, suc, ◌+◌, ◌-◌, ◌*◌, ◌/◌, ◌%◌, ◌^◌, ◌≤◌, ◌<◌, min, max, ◌≡◌, refl, sym, ap, ◌∙◌, subst,
  ◌≢◌, ◌↔◌, ◌⊎◌, inl, inr, Bool, true, false, not, ◌&&◌, ◌||◌, Option, none, some, List, [], ◌∷◌,
  ◌++◌, map, append-nil, append_assoc, arith, length, get_elem?, set, take, drop, length-append,
  length-take, length-drop, All, All-append, All-map, All_at, get_elem?-append,
  get_elem?-append_length, ltb, leb, ◌==◌, if◌then◌else◌, tests, leb→le, le→leb, leb-false→lt,
  ltb→lt, lt→ltb, ltb-false→le, Bool-cases, Option-cases,
}
use thunder_go.Prelude.Int.{ℤ, pos, leb_ℤ, eqb_ℤ}
use thunder_go.Prelude.Text.{Text, text_eq}
use thunder_go.Store.{FileRecord}
use thunder_go.Store.IngestLock.{Acquired}
use thunder_go.Stream.Vault.{Lookup, late, failed, found}
use thunder_go.Tgutil.Media.{Message, file_key, extract_size}

-- The points at which `Ingest` looks for a record of the file.
pub data Stage : Type 0 where
  first_look under_lock after_failure : Stage
  -- after a wait for the lock
  waiting : ℕ → Stage

-- What a call of Forward comes to: an error, and whether it is a FLOOD_WAIT, messages, or the
-- context is done before there is an answer.
pub data Forward : Type 0 where
  forward_error : Bool → Forward
  messages : List Message → Forward
  cut_off : Forward

pub record World : Type 0 where
  -- whether the pool has a primary client, at the start and when the vault's peer is resolved
  pub primary : Bool
  pub primary_again : Bool
  -- whether the vault's peer is cached, and whether GetInputPeer succeeds at each attempt
  pub peer_cached : Bool
  pub resolves : ℕ → Bool
  -- FindFileByKey: an error, no record, or a record
  pub find_file : Stage → Option (Option FileRecord)
  -- the lookup of a record's vault message, its time limit included
  pub lookup : Stage → FileRecord → Lookup
  -- AcquireIngestLock, call by call
  pub lock : ℕ → Acquired
  -- whether the pause before an attempt ends before the context is done
  pub pause : ℕ → Bool
  pub backoff : ℕ → Bool
  pub forward : ℕ → Forward
  -- whether InsertFile or ReplaceFile of the record returns no error
  pub persists : FileRecord → Bool
  -- whether DeleteMessages of a message and the delete in ReleaseIngestLock return no error
  pub deletes_ok : ℤ → Bool
  pub releases_ok : Bool
  pub sha256 : Text → List ℕ

-- What `Ingest` does, in order.
pub data Event : Type 0 where
  -- the mutex of the key, in this process
  locks unlocks : Text → Event
  -- the lock of the key, in the database; a call that asks to release it, and whether it succeeds,
  -- which the code does not look at
  acquires : Text → Event
  releases : Text → Bool → Event
  counts_reuse : Text → Event
  caches_peer : Event
  -- a call of Forward, and an answer whose first message has an identifier: that message, which the
  -- code goes on with, and any others, which it does not look at
  forwards : Event
  receives : Message → List Message → Event
  -- a call that asks to delete a message of the vault, and whether it succeeds, which is only logged
  deletes : ℤ → Bool → Event
  inserts replaces : FileRecord → Event

pub data IngestError : Type 0 where
  no_media no_key no_primary lock_failed not_locked cancelled no_peer : IngestError
  find_failed check_failed : Stage → IngestError
  forward_failed bad_forward no_size not_persisted : IngestError

-- A record and whether it was there before, or an error.
pub data Result : Type 0 where
  file : FileRecord → Bool → Result
  error : IngestError → Result

pub data Check : Type 0 where
  valid invalid unknown : Check

check_media : FileRecord → Message → Check
unfolding file_key extract_size
check_media rec msg =
    let actual_size = extract_size msg in
    if not msg.present
    then invalid
    else if not msg.is_media || not (text_eq (file_key msg) rec.file_key)
    then invalid
    else if leb_ℤ actual_size (pos 0) || not (eqb_ℤ actual_size rec.size)
    then invalid
    else valid

check_found : FileRecord → Lookup → Check
unfolding check_media
check_found rec late = unknown
check_found rec (failed e) = unknown
check_found rec (found []) = invalid
check_found rec (found (msg ∷ msgs)) = check_media rec msg

unfoldable pub validate_canonical_record : FileRecord → Lookup → Check
unfolding check_found
validate_canonical_record rec l =
    if eqb_ℤ rec.vault_msg_id (pos 0) then invalid else check_found rec l

-- What comes of a look for a record: an answer, no record, or one that no longer stands.
pub data Seen : Type 0 where
  answer : Result → Seen
  absent : Seen
  stale : FileRecord → Seen

after_check : Stage → Text → FileRecord → Check → Seen × List Event
after_check stage key rec valid = (answer (file rec true), counts_reuse key ∷ [])
after_check stage key rec invalid = (stale rec, [])
after_check stage key rec unknown = (answer (error (check_failed stage)), [])

after_find : World → Stage → Text → Option (Option FileRecord) → Seen × List Event
unfolding after_check
after_find w stage key none = (answer (error (find_failed stage)), [])
after_find w stage key (some none) = (absent, [])
after_find w stage key (some (some rec)) =
    after_check stage key rec (validate_canonical_record rec (w.lookup stage rec))

pub look : World → Text → Stage → Seen × List Event
unfolding after_find
look w key stage = after_find w stage key (w.find_file stage)
