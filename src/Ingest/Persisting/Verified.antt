-- ===== src/Ingest/Persisting/Verified.antt =====
-- internal/ingest/ingest.go: the record of a message that was sent.
use thunder_go.Prelude.{
  ℕ, ◌≡◌, refl, sym, subst, inl, inr, false, Option, none, some, List, ◌∷◌, arith, Bool-cases,
}
use thunder_go.Ingest.{World, messages, Check, valid, invalid, unknown, after_failure}
use thunder_go.Ingest.Persisting.{
  record_of, after_recheck, after_write_failure, persist, settle, fresh_record, with_source,
}
use thunder_go.Ingest.Verified.{IsVerified, FindsKey, Verified, validate_canonical_record-Verified}
use thunder_go.Prelude.Int.{pos, eqb_ℤ, leb_ℤ}
use thunder_go.Prelude.Text.{Text}
use thunder_go.Store.{FileRecord}
use thunder_go.Tgutil.Media.{Message, extract_size, file_key}

module _ (w : World) (now : ℕ) (key : Text) where
  after_recheck-Verified :
      (m : Message) (rec : FileRecord) (c : Check)
      → (c ≡ valid → Verified w key rec)
      → IsVerified w key (after_recheck w now key m rec c).0
  unfolding after_recheck
  after_recheck-Verified m rec valid h = elim (Bool-cases (eqb_ℤ rec.vault_msg_id m.id)) [
    | inl e ↦ rw e (h refl)
    | inr e ↦ rw e (h refl)
  ]
  after_recheck-Verified m rec invalid h = tt
  after_recheck-Verified m rec unknown h = tt

  after_write_failure-Verified :
      (m : Message) (o : Option (Option FileRecord))
      → FindsKey w key
      → w.find_file after_failure ≡ o
      → IsVerified w key (after_write_failure w now key m o).0
  unfolding after_write_failure
  after_write_failure-Verified m none h e = tt
  after_write_failure-Verified m (some none) h e = tt
  after_write_failure-Verified m (some (some rec)) h e =
      after_recheck-Verified m rec _
        (validate_canonical_record-Verified w key after_failure rec (h after_failure rec e))

  persist-Verified :
      (old : Option FileRecord) (m : Message) (rec : FileRecord)
      → FindsKey w key
      → Verified w key rec
      → IsVerified w key (persist w now key old m rec).0
  unfolding persist
  persist-Verified old m rec h v = elim (Bool-cases (w.persists rec)) [
    | inl e ↦ rw e v
    | inr e ↦ rw e (after_write_failure-Verified m _ h refl)
  ]

  -- What the record says of the message, whatever was there before.
  record_of-message :
      (old : Option FileRecord) (source m : Message)
      → let rec = record_of w now key old source m in
        (rec.file_key ≡ key) × (rec.size ≡ extract_size m) × (rec.vault_msg_id ≡ m.id)
  unfolding record_of fresh_record with_source
  record_of-message none source m = (refl, refl, refl)
  record_of-message (some old) source m = ground arith

  pub settle-Verified :
      (old : Option FileRecord) (source m : Message)
      → FindsKey w key
      → file_key m ≡ key
      → (n : ℕ) × (ms : List Message) × (w.forward n ≡ messages (m ∷ ms))
      → IsVerified w key (settle w now key old source m).0
  unfolding settle
  settle-Verified old source m h k f = elim (Bool-cases (leb_ℤ (extract_size m) (pos 0))) [
    | inl e ↦ rw e tt
    | inr e ↦
        let (same, size, id) = record_of-message old source m in
        rw e (
          persist-Verified old m _ h (record {
            key_same = same;
            has_size = subst (λ n. leb_ℤ n (pos 0) ≡ false) (sym size) e;
            message = m;
            size_same = sym size;
            file_same = k;
            vaulted = inr (id, f);
          }))
  ]
