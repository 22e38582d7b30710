-- ===== src/Ingest/Verified.antt =====
-- internal/ingest/ingest.go: the check of a record, and records that are true of a file.
use thunder_go.Prelude.{
  ℕ, ◌≡◌, refl, ◌∙◌, subst, ◌⊎◌, inl, Bool, true, false, not, ◌||◌, Option, none, some, List, [],
  ◌∷◌, arith, if◌then◌else◌,
}
use thunder_go.Ingest.{
  World, messages, Result, file, error, Check, valid, invalid, unknown, Stage, Seen, answer, absent,
  stale, check_media, check_found, validate_canonical_record, after_check, after_find, look,
}
use thunder_go.Prelude.Int.{pos, leb_ℤ, eqb_ℤ, eqb_ℤ_iff}
use thunder_go.Prelude.Text.{Text, text_eq}
use thunder_go.Prelude.Text.Laws.{text_eq_iff}
use thunder_go.Store.{FileRecord}
use thunder_go.Stream.Vault.{Lookup, late, failed, found}
use thunder_go.Tgutil.Media.{Message, file_key, extract_size}

-- The message is the vault's answer for the record, or one that was forwarded for it.
abbrev pub IsVaulted : World → FileRecord → Message → Type 0
IsVaulted w rec m =
    ((stage : Stage) × (ms : List Message) × (w.lookup stage rec ≡ found (m ∷ ms)))
    ⊎ ((rec.vault_msg_id ≡ m.id)
        × ((n : ℕ) × (ms : List Message) × (w.forward n ≡ messages (m ∷ ms))))

-- The record of a file of that key, of the size of a message of the vault with that key.
pub record Verified (w : World) (key : Text) (rec : FileRecord) : Type 0 where
  pub key_same : rec.file_key ≡ key
  pub has_size : leb_ℤ rec.size (pos 0) ≡ false
  pub message : Message
  pub size_same : extract_size message ≡ rec.size
  pub file_same : file_key message ≡ key
  pub vaulted : IsVaulted w rec message

-- A result with a record that is verified, or an error.
abbrev pub IsVerified : World → Text → Result → Type 0
IsVerified w key (file rec reused) = Verified w key rec
IsVerified w key (error e) = Unit

-- What a database that is asked for a key answers.
abbrev pub FindsKey : World → Text → Type 0
FindsKey w key =
    (stage : Stage) (rec : FileRecord) → w.find_file stage ≡ some (some rec) → rec.file_key ≡ key

-- A check that fails is not valid.
passed :
    (b : Bool) (rest : Check) → (if b then invalid else rest) ≡ valid → (b ≡ false) × (rest ≡ valid)
passed true rest h = cc
passed false rest h = (refl, h)

right_true : (a b : Bool) → (a || not b) ≡ false → b ≡ true
right_true a b h = ground arith

left_false : (a b : Bool) → (a || b) ≡ false → a ≡ false
left_false a b h = ground arith

check_media-valid :
    (rec : FileRecord) (m : Message)
    → check_media rec m ≡ valid
    → (extract_size m ≡ rec.size) × (leb_ℤ rec.size (pos 0) ≡ false) × (file_key m ≡ rec.file_key)
unfolding check_media
check_media-valid rec m h =
    let one = passed (not m.present) _ h in
    let two = passed (not m.is_media || not (text_eq (file_key m) rec.file_key)) _ one.1 in
    let three =
      passed (leb_ℤ (extract_size m) (pos 0) || not (eqb_ℤ (extract_size m) rec.size)) _ two.1 in
    let size : extract_size m ≡ rec.size =
      (eqb_ℤ_iff (extract_size m) rec.size).0 (right_true _ _ three.0) in
    (
      size,
      subst (λ n. leb_ℤ n (pos 0) ≡ false) size (left_false _ _ three.0),
      (text_eq_iff (file_key m) rec.file_key).0 (right_true _ _ two.0),
    )

check_found-valid :
    (rec : FileRecord) (l : Lookup)
    → check_found rec l ≡ valid
    → (m : Message) × (ms : List Message) × (l ≡ found (m ∷ ms)) × (check_media rec m ≡ valid)
unfolding check_found
check_found-valid rec late h = cc
check_found-valid rec (failed e) h = cc
check_found-valid rec (found []) h = cc
check_found-valid rec (found (m ∷ ms)) h = (m, ms, refl, h)

pub validate_canonical_record-Verified :
    (w : World) (key : Text) (stage : Stage) (rec : FileRecord)
    → rec.file_key ≡ key
    → validate_canonical_record rec (w.lookup stage rec) ≡ valid
    → Verified w key rec
unfolding validate_canonical_record
validate_canonical_record-Verified w key stage rec k h =
    let (m, ms, e, c) = check_found-valid rec (w.lookup stage rec) (ground arith) in
    let (size, positive, same) = check_media-valid rec m c in
    record {
      key_same = k;
      has_size = positive;
      message = m;
      size_same = size;
      file_same = same ∙ k;
      vaulted = inl (stage, ms, e);
    }

-- What a look answers is verified.
abbrev pub SeenVerified : World → Text → Seen → Type 0
SeenVerified w key (answer r) = IsVerified w key r
SeenVerified w key absent = Unit
SeenVerified w key (stale rec) = Unit

after_check-Verified :
    (w : World) (stage : Stage) (key : Text) (rec : FileRecord) (c : Check)
    → (c ≡ valid → Verified w key rec)
    → SeenVerified w key (after_check stage key rec c).0
unfolding after_check
after_check-Verified w stage key rec valid h = h refl
after_check-Verified w stage key rec invalid h = tt
after_check-Verified w stage key rec unknown h = tt

after_find-Verified :
    (w : World) (key : Text) (stage : Stage) (o : Option (Option FileRecord))
    → FindsKey w key
    → w.find_file stage ≡ o
    → SeenVerified w key (after_find w stage key o).0
unfolding after_find
after_find-Verified w key stage none h e = tt
after_find-Verified w key stage (some none) h e = tt
after_find-Verified w key stage (some (some rec)) h e =
    after_check-Verified w stage key rec _
      (validate_canonical_record-Verified w key stage rec (h stage rec e))

pub look-Verified :
    (w : World) (key : Text) (stage : Stage)
    → FindsKey w key
    → SeenVerified w key (look w key stage).0
unfolding look
look-Verified w key stage h = after_find-Verified w key stage (w.find_file stage) h refl
