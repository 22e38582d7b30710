-- ===== src/Ingest/Persisting/Follows.antt =====
-- internal/ingest/ingest.go: the events once the message is in the vault.
use thunder_go.Prelude.{
  ℕ, ◌≡◌, refl, sym, ap, ◌∙◌, inl, inr, Option, none, some, List, [], ◌∷◌, arith, Bool-cases,
}
use thunder_go.Ingest.{
  World, Event, Result, Check, valid, invalid, unknown, after_failure, validate_canonical_record,
}
use thunder_go.Ingest.Persisting.{
  written, record_of, after_recheck, after_write_failure, persist, settle, fresh_record,
  with_source,
}
use thunder_go.Ingest.Protocol.{both, ledger, run, run-deletes, kept}
use thunder_go.Prelude.Int.{ℤ, pos, eqb_ℤ, leb_ℤ, eqb_ℤ_iff}
use thunder_go.Prelude.Text.{Text}
use thunder_go.Store.{FileRecord}
use thunder_go.Tgutil.Media.{Message, extract_size}

-- With the message in the vault: what is there in the end goes with the result.
abbrev pub IsSettling : ℤ → Result × List Event → Type 0
IsSettling id r = (t : ℕ) → run r.1 (ledger both (id ∷ []) t) ≡ some (ledger both (kept r.0) t)

module _ (w : World) (now : ℕ) (key : Text) where
  after_recheck-IsSettling :
      (m : Message) (rec : FileRecord) (c : Check)
      → IsSettling m.id (after_recheck w now key m rec c)
  unfolding after_recheck
  after_recheck-IsSettling m rec valid = elim (Bool-cases (eqb_ℤ rec.vault_msg_id m.id)) [
    | inl e ↦
        let same = (eqb_ℤ_iff rec.vault_msg_id m.id).0 e in
        rw (e, same) (λ (t : ℕ). unfold run in refl)
    | inr e ↦ rw e (λ (t : ℕ). run-deletes m.id (w.deletes_ok m.id) t)
  ]
  after_recheck-IsSettling m rec invalid = λ t. run-deletes m.id (w.deletes_ok m.id) t
  after_recheck-IsSettling m rec unknown = λ t. run-deletes m.id (w.deletes_ok m.id) t

  after_write_failure-IsSettling :
      (m : Message) (o : Option (Option FileRecord))
      → IsSettling m.id (after_write_failure w now key m o)
  unfolding after_write_failure
  after_write_failure-IsSettling m none = λ t. run-deletes m.id (w.deletes_ok m.id) t
  after_write_failure-IsSettling m (some none) = λ t. run-deletes m.id (w.deletes_ok m.id) t
  after_write_failure-IsSettling m (some (some rec)) =
      after_recheck-IsSettling m rec (validate_canonical_record rec (w.lookup after_failure rec))

  written-run :
      (old : Option FileRecord) (rec : FileRecord) (es : List Event) (v : List ℤ) (t : ℕ)
      → run (written w now key old rec ∷ es) (ledger both v t) ≡ run es (ledger both v t)
  unfolding written run
  written-run none rec es v t = refl
  written-run (some old) rec es v t = refl

  persist-IsSettling :
      (old : Option FileRecord) (m : Message) (rec : FileRecord)
      → rec.vault_msg_id ≡ m.id
      → IsSettling m.id (persist w now key old m rec)
  unfolding persist run
  persist-IsSettling old m rec h = elim (Bool-cases (w.persists rec)) [
    | inl e ↦ rw e (λ (t : ℕ).
        written-run old rec [] (m.id ∷ []) t ∙ ap (λ id. some (ledger both (id ∷ []) t)) (sym h))
    | inr e ↦ rw e (λ (t : ℕ).
        written-run old rec _ (m.id ∷ []) t
        ∙ after_write_failure-IsSettling m (w.find_file after_failure) t)
  ]

  record_of-id :
      (old : Option FileRecord) (source m : Message)
      → (record_of w now key old source m).vault_msg_id ≡ m.id
  unfolding record_of fresh_record with_source
  record_of-id none source m = refl
  record_of-id (some old) source m = ground arith

  pub settle-IsSettling :
      (old : Option FileRecord) (source m : Message)
      → IsSettling m.id (settle w now key old source m)
  unfolding settle
  settle-IsSettling old source m = elim (Bool-cases (leb_ℤ (extract_size m) (pos 0))) [
    | inl e ↦ rw e (λ (t : ℕ). run-deletes m.id (w.deletes_ok m.id) t)
    | inr e ↦ rw e (persist-IsSettling old m _ (record_of-id old source m))
  ]
