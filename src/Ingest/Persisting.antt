-- ===== src/Ingest/Persisting.antt =====
-- internal/ingest/ingest.go: `Ingest` makes the record of a message in the vault and stores it.
pub mod Follows
pub mod Verified
use thunder_go.Prelude.{
  ℕ, zero, suc, ◌+◌, ◌-◌, ◌*◌, ◌/◌, ◌%◌, ◌^◌, ◌≤◌, ◌<◌, min, max, ◌≡◌, refl, sym, ap, ◌∙◌, subst,
  ◌≢◌, ◌↔◌, ◌⊎◌, inl, inr, Bool, true, false, not, ◌&&◌, ◌||◌, Option, none, some, List, [], ◌∷◌,
  ◌++◌, map, append-nil, append_assoc, arith, length, get_elem?, set, take, drop, length-append,
  length-take, length-drop, All, All-append, All-map, All_at, get_elem?-append,
  get_elem?-append_length, ltb, leb, ◌==◌, if◌then◌else◌, tests, leb→le, le→leb, leb-false→lt,
  ltb→lt, lt→ltb, ltb-false→le, Bool-cases, Option-cases,
}
use thunder_go.Ingest.{
  World, Event, Result, file, error, no_size, not_persisted, Check, valid, invalid, unknown, Stage,
  after_failure, deletes, inserts, replaces, validate_canonical_record,
}
use thunder_go.Prelude.Int.{ℤ, pos, negsuc, leb_ℤ, eqb_ℤ}
use thunder_go.Prelude.Text.{Text, codes, is_empty}
use thunder_go.Prelude.Text.Decimal.{print_int, int64_max}
use thunder_go.Store.{FileRecord}
use thunder_go.Tgutil.Hex.{hex_encode}
use thunder_go.Tgutil.Media.{
  Message, extract_file_name, extract_mime, extract_size, extract_dc_id, media_type,
}

unfoldable pub deterministic_hash : World → Text → Text
unfolding hex_encode
deterministic_hash w key = hex_encode (take 16 (w.sha256 key))

named : ℤ → Option Text → Text
unfolding is_empty
named id none = codes "Thunder_" ++ (print_int id ++ codes ".bin")
named id (some name) =
    if is_empty name then codes "Thunder_" ++ (print_int id ++ codes ".bin") else name

-- One more, as an int64.
next_int64 : ℤ → ℤ
next_int64 (pos n) = if n == int64_max then negsuc int64_max else pos (n + 1)
next_int64 (negsuc zero) = pos 0
next_int64 (negsuc (suc n)) = negsuc n

module _ (w : World) (now : ℕ) (key : Text) where
  -- The record of a message of the vault, first seen as another message.
  pub fresh_record : Message → Message → FileRecord
  unfolding deterministic_hash named extract_file_name extract_mime extract_size extract_dc_id
      media_type
  fresh_record source m = record {
    file_key = key;
    hash = deterministic_hash w key;
    file_name = named m.id (extract_file_name m);
    mime_type = extract_mime m;
    size = extract_size m;
    media_type = media_type m;
    vault_msg_id = m.id;
    dc_id = extract_dc_id m;
    created_at = now;
    last_seen_at = now;
    seen_count = pos 0;
    reuse_count = pos 0;
    first_source_chat_id = source.chat_id;
    first_source_msg_id = source.id;
  }

  with_source : FileRecord → FileRecord → FileRecord
  with_source old rec = if eqb_ℤ old.first_source_chat_id (pos 0) then rec else record rec {
    first_source_chat_id = old.first_source_chat_id;
    first_source_msg_id = old.first_source_msg_id;
  }

  -- The record keeps what the stale one says of the file's past.
  pub record_of : Option FileRecord → Message → Message → FileRecord
  unfolding with_source next_int64 fresh_record
  record_of none source m = fresh_record source m
  record_of (some old) source m = with_source old (record (fresh_record source m) {
    created_at = old.created_at;
    seen_count = next_int64 old.seen_count;
    reuse_count = old.reuse_count;
  })

  written : Option FileRecord → FileRecord → Event
  written none rec = inserts rec
  written (some old) rec = replaces rec

  -- A failed write: the message is deleted unless the record that is there is of this message.
  after_recheck : Message → FileRecord → Check → Result × List Event
  after_recheck m found valid =
      if eqb_ℤ found.vault_msg_id m.id
      then (file found false, [])
      else (file found true, deletes m.id (w.deletes_ok m.id) ∷ [])
  after_recheck m found invalid = (error not_persisted, deletes m.id (w.deletes_ok m.id) ∷ [])
  after_recheck m found unknown = (error not_persisted, deletes m.id (w.deletes_ok m.id) ∷ [])

  after_write_failure : Message → Option (Option FileRecord) → Result × List Event
  unfolding after_recheck
  after_write_failure m none = (error not_persisted, deletes m.id (w.deletes_ok m.id) ∷ [])
  after_write_failure m (some none) = (error not_persisted, deletes m.id (w.deletes_ok m.id) ∷ [])
  after_write_failure m (some (some found)) =
      after_recheck m found (validate_canonical_record found (w.lookup after_failure found))

  persist : Option FileRecord → Message → FileRecord → Result × List Event
  unfolding written after_write_failure
  persist old m rec =
      let (r, es) = after_write_failure m (w.find_file after_failure) in
      if w.persists rec then (file rec false, written old rec ∷ []) else (r, written old rec ∷ es)

  -- What follows once the message is in the vault.
  pub settle : Option FileRecord → Message → Message → Result × List Event
  unfolding persist record_of extract_size
  settle old source m =
      if leb_ℤ (extract_size m) (pos 0)
      then (error no_size, deletes m.id (w.deletes_ok m.id) ∷ [])
      else persist old m (record_of old source m)
