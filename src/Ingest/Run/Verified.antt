-- ===== src/Ingest/Run/Verified.antt =====
-- internal/ingest/ingest.go: the record that `Ingest` returns.
use thunder_go.Prelude.{ℕ, Bool, true, false, not, Option, none, some, List, if◌then◌else◌}
use thunder_go.Ingest.{World, Event, Result, Seen, answer, absent, stale, first_look, under_lock}
use thunder_go.Ingest.Forwarding.{vault_peer_resolved, Sent, sent, unsent}
use thunder_go.Ingest.Forwarding.Verified.{SentVerified, forward_loop-Verified}
use thunder_go.Ingest.Locking.{Waited, got, ended}
use thunder_go.Ingest.Locking.Verified.{WaitedVerified, acquire-Verified}
use thunder_go.Ingest.Persisting.Verified.{settle-Verified}
use thunder_go.Ingest.Run.{
  after_send, with_peer, store_media, after_second_look, release, after_acquire, after_first_look,
  unlock, ingest_key, ingest,
}
use thunder_go.Ingest.Verified.{IsVerified, FindsKey, SeenVerified, look-Verified}
use thunder_go.Prelude.Text.{Text, is_empty}
use thunder_go.Store.{FileRecord}
use thunder_go.Tgutil.Media.{Message, file_key}

if-Verified :
    (w : World) (key : Text) (b : Bool) (x y : Result × List Event)
    → IsVerified w key x.0
    → IsVerified w key y.0
    → IsVerified w key (if b then x else y).0
if-Verified w key true x y h k = h
if-Verified w key false x y h k = k

module _ (w : World) (now : ℕ) (source : Message) (key : Text) where
  after_send-Verified :
      (old : Option FileRecord) (r : Sent × List Event)
      → FindsKey w key
      → SentVerified w key r.0
      → IsVerified w key (after_send w now source key old r).0
  unfolding after_send
  after_send-Verified old (sent m, es) h (same, n, ms, e) =
      settle-Verified w now key old source m h same (n, ms, e)
  after_send-Verified old (unsent e, es) h k = tt

  with_peer-Verified :
      (old : Option FileRecord) (r : Bool × List Event)
      → FindsKey w key
      → IsVerified w key (with_peer w now source key old r).0
  unfolding with_peer
  with_peer-Verified old (false, es) h = tt
  with_peer-Verified old (true, es) h =
      after_send-Verified old _ h (forward_loop-Verified w key 3 0)

  store_media-Verified :
      (old : Option FileRecord)
      → FindsKey w key
      → IsVerified w key (store_media w now source key old).0
  unfolding store_media
  store_media-Verified old h = with_peer-Verified old (vault_peer_resolved w) h

  after_second_look-Verified :
      (old : Option FileRecord) (r : Seen × List Event)
      → FindsKey w key
      → SeenVerified w key r.0
      → IsVerified w key (after_second_look w now source key old r).0
  unfolding after_second_look
  after_second_look-Verified old (answer r, es) h k = k
  after_second_look-Verified old (absent, es) h k = store_media-Verified old h
  after_second_look-Verified old (stale rec, es) h k = store_media-Verified (some rec) h

  after_acquire-Verified :
      (r : Waited × List Event)
      → FindsKey w key
      → WaitedVerified w key r.0
      → IsVerified w key (after_acquire w now source key r).0
  unfolding after_acquire release
  after_acquire-Verified (ended r, es) h k = k
  after_acquire-Verified (got old, es) h k =
      after_second_look-Verified old _ h (look-Verified w key under_lock h)

  after_first_look-Verified :
      (r : Seen × List Event)
      → FindsKey w key
      → SeenVerified w key r.0
      → IsVerified w key (after_first_look w now source key r).0
  unfolding after_first_look
  after_first_look-Verified (answer r, es) h k = k
  after_first_look-Verified (absent, es) h k =
      after_acquire-Verified _ h (acquire-Verified w key none h)
  after_first_look-Verified (stale rec, es) h k =
      after_acquire-Verified _ h (acquire-Verified w key (some rec) h)

  ingest_key-Verified : FindsKey w key → IsVerified w key (ingest_key w now source key).0
  unfolding ingest_key unlock
  ingest_key-Verified h =
      if-Verified w key (not w.primary) _ _ tt
        (after_first_look-Verified _ h (look-Verified w key first_look h))

-- With a database that answers a key with a record of that key: a record that `Ingest` returns is
-- of the file that was asked for, its size is positive, and Telegram has answered, to a lookup of
-- the record or when the file was forwarded, with a message of the vault of that key and size.
pub ingest-IsVerified :
    (w : World) (now : ℕ) (m : Message)
    → FindsKey w (file_key m)
    → IsVerified w (file_key m) (ingest w now (some m)).0
unfolding ingest
ingest-IsVerified w now m h = if-Verified w (file_key m) (not m.is_media) _ _ tt (
    if-Verified w (file_key m) (is_empty (file_key m)) _ _ tt
      (ingest_key-Verified w now m (file_key m) h))
