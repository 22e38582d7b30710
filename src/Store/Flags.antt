-- ===== src/Store/Flags.antt =====
-- internal/store/store.go: the banned users, the banned channels and the authorized users. The
-- three have the same code over a collection of their own, so there is one model. A MongoDB
-- collection is a parameter: a state, and what each call returns and does to it.
pub mod Fresh
pub mod Race
use thunder_go.Prelude.{
  ℕ, zero, suc, ◌+◌, ◌-◌, ◌*◌, ◌/◌, ◌%◌, ◌^◌, ◌≤◌, ◌<◌, min, max, ◌≡◌, refl, sym, ap, ◌∙◌, subst,
  ◌≢◌, ◌↔◌, ◌⊎◌, inl, inr, Bool, true, false, not, ◌&&◌, ◌||◌, Option, none, some, List, [], ◌∷◌,
  ◌++◌, map, append-nil, append_assoc, arith, length, get_elem?, set, take, drop, length-append,
  length-take, length-drop, All, All-append, All-map, All_at, get_elem?-append,
  get_elem?-append_length, ltb, leb, ◌==◌, if◌then◌else◌, tests, leb→le, le→leb, leb-false→lt,
  ltb→lt, lt→ltb, ltb-false→le, Bool-cases, Option-cases,
}
use thunder_go.Cache.{Cache, get, set_entry, invalidate}
use thunder_go.Prelude.Int.{ℤ}
use thunder_go.Prelude.Text.{Text}
use thunder_go.Prelude.Text.Decimal.{print_int}

pub record Collection (S : Type 0) : Type 0 where
  -- `UpdateOne` with upsert and `DeleteOne`, of the document of an identifier: whether there was no
  -- error, and the state after the call.
  pub upsert : ℤ → S → Bool × S
  pub delete_one : ℤ → S → Bool × S
  -- `CountDocuments`, or an error
  pub count_documents : ℤ → S → Option ℕ

pub record Flags (S : Type 0) : Type 0 where
  pub documents : S
  pub cache : Cache Bool

module _ {S : Type 0} (db : Collection S) where
  -- What `BanUser`, `UnbanUser` and their like do once the collection has answered.
  unfoldable pub after_write : ℤ → Cache Bool → Bool × S → Bool × Flags S
  after_write id cache (true, s) =
      (true, record { documents = s; cache = invalidate (print_int id) cache })
  after_write id cache (false, s) = (false, record { documents = s; cache = cache })

  unfoldable pub flag : ℤ → Flags S → Bool × Flags S
  unfolding after_write
  flag id f = after_write id f.cache (db.upsert id f.documents)

  unfoldable pub unflag : ℤ → Flags S → Bool × Flags S
  unfolding after_write
  unflag id f = after_write id f.cache (db.delete_one id f.documents)

  -- The second half of `IsUserBanned` and its like, with what the collection has counted.
  unfoldable pub finish_read : ℕ → ℤ → Option ℕ → Flags S → Option Bool × Flags S
  finish_read now id none f = (none, f)
  finish_read now id (some count) f =
      (some (ltb 0 count), record f { cache = set_entry now (print_int id) (ltb 0 count) f.cache })

  unfoldable pub after_get : ℕ → ℤ → S → Option Bool × Cache Bool → Option Bool × Flags S
  unfolding finish_read
  after_get later id s (some v, cache) = (some v, record { documents = s; cache = cache })
  after_get later id s (none, cache) =
      finish_read later id (db.count_documents id s) (record { documents = s; cache = cache })

  -- The cache is read at one time and written at another; `none` is an error.
  unfoldable pub is_flagged : ℕ → ℕ → ℤ → Flags S → Option Bool × Flags S
  unfolding after_get
  is_flagged now later id f = after_get later id f.documents (get now (print_int id) f.cache)
