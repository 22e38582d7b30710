-- ===== src/Store/Activations.antt =====
-- internal/store/store.go: `ActivateUser` and `IsUserActivated`. The code is that of Store.Flags, but
-- a document has a time at which it expires, and only those that have not expired are counted.
pub mod Fresh
use thunder_go.Prelude.{
  ℕ, zero, suc, ◌+◌, ◌-◌, ◌*◌, ◌/◌, ◌%◌, ◌^◌, ◌≤◌, ◌<◌, min, max, ◌≡◌, refl, sym, ap, ◌∙◌, subst,
  ◌≢◌, ◌↔◌, ◌⊎◌, inl, inr, Bool, true, false, not, ◌&&◌, ◌||◌, Option, none, some, List, [], ◌∷◌,
  ◌++◌, map, append-nil, append_assoc, arith, length, get_elem?, set, take, drop, length-append,
  length-take, length-drop, All, All-append, All-map, All_at, get_elem?-append,
  get_elem?-append_length, ltb, leb, ◌==◌, if◌then◌else◌, tests, leb→le, le→leb, leb-false→lt,
  ltb→lt, lt→ltb, ltb-false→le, Bool-cases, Option-cases,
}
use thunder_go.Prelude.Int.{ℤ}
use thunder_go.Store.Flags.{Collection, Flags, flag, is_flagged}

pub record ActivatedUsers (S : Type 0) : Type 0 where
  -- `UpdateOne` with upsert of the document of a user, which expires at a time
  pub upsert_until : ℕ → ℤ → S → Bool × S
  pub delete_one : ℤ → S → Bool × S
  -- `CountDocuments` of a user that expire after a time, or an error
  pub count_active : ℕ → ℤ → S → Option ℕ

module _ {S : Type 0} (db : ActivatedUsers S) where
  -- The calls of the collection, with the expiry that is written and the time of a count.
  abbrev pub as_of : ℕ → ℕ → Collection S
  as_of expires_at time = record {
    upsert = db.upsert_until expires_at;
    delete_one = db.delete_one;
    count_documents = db.count_active time;
  }

  -- At a time, for a number of nanoseconds.
  unfoldable pub activate_user : ℕ → ℕ → ℤ → Flags S → Bool × Flags S
  activate_user now ttl user f = flag (as_of (now + ttl) now) user f

  -- The cache is read at one time; the documents are counted, and the cache is written, at another.
  unfoldable pub is_user_activated : ℕ → ℕ → ℤ → Flags S → Option Bool × Flags S
  is_user_activated now later user f = is_flagged (as_of later later) now later user f
