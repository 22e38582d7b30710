-- ===== src/Store/Files/Honest.antt =====
-- internal/store/store.go: what the code relies on of the collection of the files.
use thunder_go.Prelude.{◌≡◌, ap, subst, ◌⊎◌, true, false, Option, some}
use thunder_go.Prelude.Int.{pos}
use thunder_go.Prelude.Text.{Text, text_eq, is_empty}
use thunder_go.Store.{FileRecord}
use thunder_go.Store.Files.{Collection}

-- The records that a state of the collection has, by key and by hash.
pub record View (S : Type 0) : Type 0 where
  pub by_key : Text → S → Option FileRecord
  pub by_hash : Text → S → Option FileRecord

-- A record without its counts and times; MongoDB keeps fewer digits of a time.
abbrev pub without_counts : FileRecord → FileRecord
without_counts f = record f {
  created_at = 0;
  last_seen_at = 0;
  seen_count = pos 0;
  reuse_count = pos 0;
}

-- The same record in every field but the counts and the times.
abbrev pub IsSame : FileRecord → FileRecord → Type 0
IsSame f g = without_counts f ≡ without_counts g

-- A record with a key and a hash, as `Ingest` makes them.
abbrev pub IsNamed : FileRecord → Type 0
IsNamed f = (is_empty f.file_key ≡ false) × (is_empty f.hash ≡ false)

pub IsSame-IsNamed : (f g : FileRecord) → IsSame f g → IsNamed f → IsNamed g
IsSame-IsNamed f g e n = (
  subst (λ t. is_empty t ≡ false) (ap (λ r. r.file_key) e) n.0,
  subst (λ t. is_empty t ≡ false) (ap (λ r. r.hash) e) n.1,
)

module _ {S : Type 0} (db : Collection S) (v : View S) where
  -- A record that a state has for a key, up to its counts and times.
  abbrev pub OfKey : S → Text → FileRecord → Type 0
  OfKey s k f = (d : FileRecord) × (v.by_key k s ≡ some d) × (IsSame f d)

  -- One collection with unique keys and hashes; each call acts on the records it names alone, also
  -- if it returns an error after it has acted.
  pub record Honest : Type 0 where
    pub finds_key :
        (k : Text) (s : S) (o : Option FileRecord)
        → db.find_one_by_key k s ≡ some o
        → v.by_key k s ≡ o
    pub finds_hash :
        (h : Text) (s : S) (o : Option FileRecord)
        → db.find_one_by_hash h s ≡ some o
        → v.by_hash h s ≡ o
    pub key_found :
        (k : Text) (s : S) (d : FileRecord)
        → v.by_key k s ≡ some d
        → (d.file_key ≡ k) × (v.by_hash d.hash s ≡ some d)
    pub hash_found :
        (h : Text) (s : S) (d : FileRecord)
        → v.by_hash h s ≡ some d
        → (d.hash ≡ h) × (v.by_key d.file_key s ≡ some d)
    pub insert_keeps :
        (f : FileRecord) (k : Text) (s : S) (d : FileRecord)
        → v.by_key k s ≡ some d
        → v.by_key k (db.insert_one f s).1 ≡ some d
    pub insert_ok :
        (f : FileRecord) (s : S)
        → (db.insert_one f s).0 ≡ true
        → OfKey (db.insert_one f s).1 f.file_key f
    pub insert_only :
        (f : FileRecord) (k : Text) (s : S) (d : FileRecord)
        → v.by_key k (db.insert_one f s).1 ≡ some d
        → IsSame f d ⊎ (v.by_key k s ≡ some d)
    pub replace_keeps :
        (f : FileRecord) (k : Text) (s : S) (d : FileRecord)
        → text_eq f.file_key k ≡ false
        → v.by_key k s ≡ some d
        → v.by_key k (db.replace_one f s).1 ≡ some d
    pub replace_ok :
        (f : FileRecord) (s : S)
        → (db.replace_one f s).0 ≡ true
        → OfKey (db.replace_one f s).1 f.file_key f
    pub replace_only :
        (f : FileRecord) (k : Text) (s : S) (d : FileRecord)
        → v.by_key k (db.replace_one f s).1 ≡ some d
        → IsSame f d ⊎ (v.by_key k s ≡ some d)
    pub delete_keeps :
        (h k : Text) (s : S) (d : FileRecord)
        → text_eq h d.hash ≡ false
        → v.by_key k s ≡ some d
        → v.by_key k (db.delete_one h s).1 ≡ some d
    pub delete_only :
        (h k : Text) (s : S) (d : FileRecord)
        → v.by_key k (db.delete_one h s).1 ≡ some d
        → v.by_key k s ≡ some d
    pub update_only :
        (j k : Text) (s : S) (e : FileRecord)
        → v.by_key k (db.update_one j s).1 ≡ some e
        → (d : FileRecord) × (v.by_key k s ≡ some d) × (IsSame d e)
    pub update_keeps :
        (j k : Text) (s : S) (d : FileRecord)
        → v.by_key k s ≡ some d
        → (e : FileRecord) × (v.by_key k (db.update_one j s).1 ≡ some e) × (IsSame d e)
