-- ===== src/Store/Flags/Fresh.antt =====
-- internal/store/store.go: the cached flags against the collection.
use thunder_go.Prelude.{
  ℕ, ◌≡◌, refl, sym, ap, ◌∙◌, subst, ◌≢◌, Bool, true, false, Option, none, some, ltb,
}
use thunder_go.Cache.{Cache, get}
use thunder_go.Cache.Coherence.{
  IsCoherent, get_sound, get-IsCoherent, set_entry-IsCoherent, invalidate-IsCoherent,
}
use thunder_go.Prelude.Int.{ℤ}
use thunder_go.Prelude.Text.{Text, text_eq}
use thunder_go.Prelude.Text.Laws.{text_eq_refl}
use thunder_go.Prelude.Text.Decimal.{print_int, print_int-injective}
use thunder_go.Store.Flags.{
  Collection, Flags, flag, unflag, is_flagged, after_write, after_get, finish_read,
}

-- How MongoDB behaves, where `has s id` says that the collection has a document of `id`: a count is
-- right, a write without an error took effect, and no write changes another document.
pub record IsCollection {S : Type 0} (db : Collection S) (has : S → ℤ → Bool) : Type 0 where
  pub counts : (id : ℤ) (s : S) (n : ℕ) → db.count_documents id s ≡ some n → ltb 0 n ≡ has s id
  pub upserts : (id : ℤ) (s : S) → (db.upsert id s).0 ≡ true → has (db.upsert id s).1 id ≡ true
  pub deletes :
      (id : ℤ) (s : S) → (db.delete_one id s).0 ≡ true → has (db.delete_one id s).1 id ≡ false
  pub upsert_others : (id j : ℤ) (s : S) → id ≢ j → has (db.upsert id s).1 j ≡ has s j
  pub delete_others : (id j : ℤ) (s : S) → id ≢ j → has (db.delete_one id s).1 j ≡ has s j

module _ {S : Type 0} (db : Collection S) (has : S → ℤ → Bool) (laws : IsCollection db has) where
  -- The cached value for a key is what the collection would answer.
  abbrev pub Right : S → Text → Bool → Type 0
  Right s key v = (id : ℤ) → key ≡ print_int id → v ≡ has s id

  abbrev pub IsFresh : Flags S → Type 0
  IsFresh f = IsCoherent (Right f.documents) f.cache

  Right-self : (s : S) (id : ℤ) (v : Bool) → v ≡ has s id → Right s (print_int id) v
  Right-self s id v h j e = h ∙ ap (λ i. has s i) (print_int-injective id j e)

  -- A reader that finds the flags fresh is right, and leaves them so.
  abbrev pub Answers : ℤ → Flags S → Option Bool × Flags S → Type 0
  Answers id f r =
      ((v : Bool) → r.0 ≡ some v → v ≡ has f.documents id)
      × IsFresh r.1
      × (r.1.documents ≡ f.documents)

  finish_read-Answers :
      (now : ℕ) (id : ℤ) (o : Option ℕ) (f : Flags S)
      → db.count_documents id f.documents ≡ o
      → IsFresh f
      → Answers id f (finish_read db now id o f)
  unfolding finish_read
  finish_read-Answers now id none f e h = ((λ v q. cc), h, refl)
  finish_read-Answers now id (some n) f e h =
      let right = laws.counts id f.documents n e in
      (
        (λ v q. let same : ltb 0 n ≡ v = cc q in sym same ∙ right),
        set_entry-IsCoherent (Right f.documents) now (print_int id) (ltb 0 n) f.cache
            (Right-self f.documents id (ltb 0 n) right) h,
        refl,
      )

  -- Where what the cache holds is right, and no writer comes in between, a read of a flag is the
  -- collection's answer, whether or not it comes from the cache, or an error; it changes no document
  -- and leaves the cache right.
  pub is_flagged-Answers :
      (now later : ℕ) (id : ℤ) (f : Flags S)
      → IsFresh f
      → Answers id f (is_flagged db now later id f)
  unfolding is_flagged after_get
  is_flagged-Answers now later id f h = go (get now (print_int id) f.cache) refl
    where
      go :
          (r : Option Bool × Cache Bool)
          → get now (print_int id) f.cache ≡ r
          → Answers id f (after_get db later id f.documents r)
      go (some v, cache) e =
          let right =
            get_sound (Right f.documents) now (print_int id) f.cache v h (ap (λ r. r.0) e) in
          let kept = get-IsCoherent (Right f.documents) now (print_int id) f.cache h in
          (
            (λ w q. let same : v ≡ w = cc q in sym same ∙ right id refl),
            subst (λ r. IsCoherent (Right f.documents) r.1) e kept,
            refl,
          )
      go (none, cache) e =
          let kept = get-IsCoherent (Right f.documents) now (print_int id) f.cache h in
          finish_read-Answers later id (db.count_documents id f.documents)
            (record { documents = f.documents; cache = cache }) refl
            (subst (λ r. IsCoherent (Right f.documents) r.1) e kept)

  contradiction : (s j : Text) → j ≡ s → text_eq s j ≢ false
  contradiction s j e h =
      let t : true ≡ false = sym (text_eq_refl s) ∙ subst (λ x. text_eq s x ≡ false) e h in cc t

  -- A write without an error that changes the document of one identifier only.
  after_write-IsFresh :
      (id : ℤ) (f : Flags S) (r : Bool × S)
      → ((j : ℤ) → id ≢ j → has r.1 j ≡ has f.documents j)
      → IsFresh f
      → (after_write db id f.cache r).0 ≡ true
      → IsFresh (after_write db id f.cache r).1
        × ((after_write db id f.cache r).1.documents ≡ r.1)
        × (r.0 ≡ true)
  unfolding after_write
  after_write-IsFresh id f (false, s) others h ok = cc
  after_write-IsFresh id f (true, s) others h ok = (
    invalidate-IsCoherent (Right f.documents) (Right s) (print_int id) f.cache
        (λ j v other right i e.
          right i e
          ∙ sym (
              others i
                (λ same. contradiction (print_int id) j (e ∙ ap print_int (sym same)) other)))
        h,
    refl,
    refl,
  )

  -- A ban or its like that meets no error leaves a cache that was right, right again, and the flag
  -- set in the collection.
  pub flag-IsFresh :
      (id : ℤ) (f : Flags S)
      → IsFresh f
      → (flag db id f).0 ≡ true
      → IsFresh (flag db id f).1 × (has (flag db id f).1.documents id ≡ true)
  unfolding flag
  flag-IsFresh id f h ok =
      let k =
        after_write-IsFresh id f (db.upsert id f.documents)
          (λ j ne. laws.upsert_others id j f.documents ne) h ok in
      (k.0, ap (λ s. has s id) k.1 ∙ laws.upserts id f.documents k.2)

  -- An unban or its like that meets no error leaves a cache that was right, right again, and the
  -- flag not set in the collection.
  pub unflag-IsFresh :
      (id : ℤ) (f : Flags S)
      → IsFresh f
      → (unflag db id f).0 ≡ true
      → IsFresh (unflag db id f).1 × (has (unflag db id f).1.documents id ≡ false)
  unfolding unflag
  unflag-IsFresh id f h ok =
      let k =
        after_write-IsFresh id f (db.delete_one id f.documents)
          (λ j ne. laws.delete_others id j f.documents ne) h ok in
      (k.0, ap (λ s. has s id) k.1 ∙ laws.deletes id f.documents k.2)
