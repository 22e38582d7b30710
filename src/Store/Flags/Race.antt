-- ===== src/Store/Flags/Race.antt =====
-- internal/store/store.go: a reader of a flag that is overtaken by a writer.
use thunder_go.Prelude.{
  ℕ, ◌+◌, ◌≤◌, ◌<◌, ◌≡◌, refl, inl, inr, Bool, true, false, Option, none, some, List, [], ◌∷◌, All,
  Bool-cases,
}
use thunder_go.Cache.{Entry, remove_element, Cache, get, invalidate, max_int64}
use thunder_go.Cache.Laws.{IsValid}
use thunder_go.Cache.Setting.{invalidate-IsValid}
use thunder_go.Cache.Reading.{Past, get-set_entry}
use thunder_go.Prelude.Int.{ℤ}
use thunder_go.Prelude.Text.{Text, text_eq}
use thunder_go.Prelude.Text.Decimal.{print_int}
use thunder_go.Store.Flags.{
  Collection, Flags, flag, is_flagged, after_write, after_get, finish_read,
}

module _ {S : Type 0} (db : Collection S) where
  -- The flags after a ban that had no error, and the caching of a count that was taken before it.
  abbrev pub overtaken : ℕ → ℤ → ℕ → Flags S → Flags S
  overtaken now id count f = (finish_read db now id (some count) (flag db id f).1).1

  -- A read that finds a cached value returns it.
  is_flagged-cached :
      (later after : ℕ) (id : ℤ) (v : Bool) (f : Flags S)
      → (get later (print_int id) f.cache).0 ≡ some v
      → (is_flagged db later after id f).0 ≡ some v
  unfolding is_flagged after_get
  is_flagged-cached later after id v f h = go (get later (print_int id) f.cache) h
    where
      go :
          (r : Option Bool × Cache Bool)
          → r.0 ≡ some v
          → (after_get db after id f.documents r).0 ≡ some v
      go (none, cache) e = cc
      go (some w, cache) e = e

  Past-remove_element :
      (now : ℕ) (k : Text) (es : List (Entry Bool))
      → All (λ y. y.last_access ≤ now) es
      → All (λ y. y.last_access ≤ now) (remove_element k es)
  unfolding remove_element
  Past-remove_element now k [] h = h
  Past-remove_element now k (e ∷ es) h = elim (Bool-cases (text_eq e.key k)) [
    | inl t ↦ rw t h.1
    | inr t ↦ rw t (h.0, Past-remove_element now k es h.1)
  ]

  -- A reader that counted no document of a user, was overtaken by the ban of that user and caches
  -- its answer after the ban has invalidated the cache, makes the read that comes next, unless it
  -- comes after the entry has expired, answer that the user is not banned, though the ban was
  -- written without an error and the collection is as it left it. The cache is well-formed and may
  -- hold one entry at least, the time of the answer is an int64, and no access lies after it.
  pub overtaken-is_flagged :
      (now later after : ℕ) (id : ℤ) (f : Flags S)
      → IsValid f.cache
      → 0 < f.cache.max_size
      → now ≤ max_int64
      → Past now f.cache
      → later ≤ now + f.cache.ttl
      → (flag db id f).0 ≡ true
      → ((is_flagged db later after id (overtaken now id 0 f)).0 ≡ some false)
        × ((overtaken now id 0 f).documents ≡ (db.upsert id f.documents).1)
  unfolding flag finish_read after_write invalidate
  overtaken-is_flagged now later after id f valid room time past live ok =
      go (db.upsert id f.documents) ok
    where
      go :
          (r : Bool × S)
          → (after_write db id f.cache r).0 ≡ true
          → ((is_flagged db later after id
                (finish_read db now id (some 0) (after_write db id f.cache r).1).1).0
              ≡ some false)
            × ((finish_read db now id (some 0) (after_write db id f.cache r).1).1.documents ≡ r.1)
      go (false, s) e = cc
      go (true, s) e = (
        is_flagged-cached later after id false
            (finish_read db now id (some 0) (after_write db id f.cache (true, s)).1).1
            (get-set_entry now later (print_int id) false (invalidate (print_int id) f.cache)
              (invalidate-IsValid (print_int id) f.cache valid) room time
              (Past-remove_element now (print_int id) f.cache.ll past) live),
        refl,
      )
