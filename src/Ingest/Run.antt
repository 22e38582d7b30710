-- ===== src/Ingest/Run.antt =====
-- internal/ingest/ingest.go: `Ingest`, from a message to a result.
pub mod Follows
pub mod Verified
use thunder_go.Prelude.{
  ℕ, zero, suc, ◌+◌, ◌-◌, ◌*◌, ◌/◌, ◌%◌, ◌^◌, ◌≤◌, ◌<◌, min, max, ◌≡◌, refl, sym, ap, ◌∙◌, subst,
  ◌≢◌, ◌↔◌, ◌⊎◌, inl, inr, Bool, true, false, not, ◌&&◌, ◌||◌, Option, none, some, List, [], ◌∷◌,
  ◌++◌, map, append-nil, append_assoc, arith, length, get_elem?, set, take, drop, length-append,
  length-take, length-drop, All, All-append, All-map, All_at, get_elem?-append,
  get_elem?-append_length, ltb, leb, ◌==◌, if◌then◌else◌, tests, leb→le, le→leb, leb-false→lt,
  ltb→lt, lt→ltb, ltb-false→le, Bool-cases, Option-cases,
}
use thunder_go.Ingest.{
  World, Event, Result, error, no_media, no_key, no_primary, no_peer, Seen, answer, absent, stale,
  Stage, first_look, under_lock, locks, unlocks, releases, look,
}
use thunder_go.Ingest.Forwarding.{vault_peer_resolved, Sent, sent, unsent, forward_loop}
use thunder_go.Ingest.Locking.{Waited, got, ended, acquire}
use thunder_go.Ingest.Persisting.{settle}
use thunder_go.Prelude.Text.{Text, is_empty}
use thunder_go.Store.{FileRecord}
use thunder_go.Tgutil.Media.{Message, file_key}

abbrev Done : Type 0
Done = Result × List Event

-- What was done before.
abbrev pub after : List Event → Done → Done
after es (r, fs) = (r, es ++ fs)

module _ (w : World) (now : ℕ) (source : Message) (key : Text) where
  after_send : Option FileRecord → Sent × List Event → Done
  after_send old (sent m, es) = after es (settle w now key old source m)
  after_send old (unsent e, es) = (error e, es)

  with_peer : Option FileRecord → Bool × List Event → Done
  unfolding after_send
  with_peer old (false, es) = (error no_peer, es)
  with_peer old (true, es) = after es (after_send old (forward_loop w key 3 0))

  pub store_media : Option FileRecord → Done
  unfolding with_peer vault_peer_resolved
  store_media old = with_peer old (vault_peer_resolved w)

  -- With the lock, a record may have come in the meantime.
  after_second_look : Option FileRecord → Seen × List Event → Done
  unfolding store_media
  after_second_look old (answer r, es) = (r, es)
  after_second_look old (absent, es) = after es (store_media old)
  after_second_look old (stale rec, es) = after es (store_media (some rec))

  release : Done → Done
  release (r, es) = (r, es ++ (releases key w.releases_ok ∷ []))

  after_acquire : Waited × List Event → Done
  unfolding after_second_look release
  after_acquire (ended r, es) = (r, es)
  after_acquire (got old, es) = after es (release (after_second_look old (look w key under_lock)))

  after_first_look : Seen × List Event → Done
  unfolding after_acquire
  after_first_look (answer r, es) = (r, es)
  after_first_look (absent, es) = after es (after_acquire (acquire w key none))
  after_first_look (stale rec, es) = after es (after_acquire (acquire w key (some rec)))

  unlock : Done → Done
  unlock (r, es) = (r, locks key ∷ (es ++ (unlocks key ∷ [])))

  -- The part that holds the mutex of the key.
  pub ingest_key : Done
  unfolding after_first_look unlock
  ingest_key =
      unlock
        (if not w.primary then (error no_primary, []) else after_first_look (look w key first_look))

-- `none` is a nil message.
unfoldable pub ingest : World → ℕ → Option Message → Done
unfolding ingest_key is_empty file_key
ingest w now none = (error no_media, [])
ingest w now (some m) =
    let key = file_key m in
    if not m.is_media
    then (error no_media, [])
    else if is_empty key
    then (error no_key, [])
    else ingest_key w now m key
