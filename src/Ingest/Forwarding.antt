-- ===== src/Ingest/Forwarding.antt =====
-- internal/ingest/ingest.go: `vaultPeerResolved`, and the loop in which `Ingest` forwards the media.
pub mod Follows
pub mod Verified
use thunder_go.Prelude.{
  ℕ, zero, suc, ◌+◌, ◌-◌, ◌*◌, ◌/◌, ◌%◌, ◌^◌, ◌≤◌, ◌<◌, min, max, ◌≡◌, refl, sym, ap, ◌∙◌, subst,
  ◌≢◌, ◌↔◌, ◌⊎◌, inl, inr, Bool, true, false, not, ◌&&◌, ◌||◌, Option, none, some, List, [], ◌∷◌,
  ◌++◌, map, append-nil, append_assoc, arith, length, get_elem?, set, take, drop, length-append,
  length-take, length-drop, All, All-append, All-map, All_at, get_elem?-append,
  get_elem?-append_length, ltb, leb, ◌==◌, if◌then◌else◌, tests, leb→le, le→leb, leb-false→lt,
  ltb→lt, lt→ltb, ltb-false→le, Bool-cases, Option-cases,
}
use thunder_go.Ingest.{
  World, Event, Forward, forward_error, messages, cut_off, IngestError, cancelled, forward_failed,
  bad_forward, caches_peer, forwards, receives, deletes,
}
use thunder_go.Prelude.Int.{pos, eqb_ℤ}
use thunder_go.Prelude.Text.{Text, text_eq}
use thunder_go.Tgutil.Media.{Message, file_key}

unfoldable pub vault_peer_resolved : World → Bool × List Event
vault_peer_resolved w =
    if w.peer_cached
    then (true, [])
    else if not w.primary_again
    then (false, [])
    else if w.resolves 0 || w.resolves 1
    then (true, caches_peer ∷ [])
    else (false, [])

-- The message in the vault that may be served, or an error.
pub data Sent : Type 0 where
  sent : Message → Sent
  unsent : IngestError → Sent

module _ (w : World) (key : Text) where
  candidate : Message → List Message → Sent × List Event
  unfolding file_key
  candidate m ms =
      if m.is_media && text_eq (file_key m) key
      then (sent m, forwards ∷ receives m ms ∷ [])
      else (unsent bad_forward, forwards ∷ receives m ms ∷ deletes m.id (w.deletes_ok m.id) ∷ [])

  -- One answer of Forward, and what follows if it is worth another attempt.
  after_forward : Sent × List Event → Forward → Sent × List Event
  unfolding candidate
  after_forward rest (forward_error true) = (unsent forward_failed, forwards ∷ [])
  after_forward rest (forward_error false) = (rest.0, forwards ∷ rest.1)
  after_forward rest (messages []) = (rest.0, forwards ∷ rest.1)
  after_forward rest (messages (m ∷ ms)) =
      if eqb_ℤ m.id (pos 0) then (rest.0, forwards ∷ rest.1) else candidate m ms
  after_forward rest cut_off = (unsent cancelled, forwards ∷ [])

  -- The attempts that are left, and those made.
  pub forward_loop : ℕ → ℕ → Sent × List Event
  unfolding after_forward
  forward_loop zero attempt = (unsent forward_failed, [])
  forward_loop (suc left) attempt =
      let next = after_forward (forward_loop left (suc attempt)) (w.forward attempt) in
      if attempt == 0 || w.backoff attempt then next else (unsent cancelled, [])
