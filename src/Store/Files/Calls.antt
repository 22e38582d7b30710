-- ===== src/Store/Files/Calls.antt =====
-- internal/store/store.go: the calls on the files keep the caches right.
use thunder_go.Prelude.{
  ℕ, ◌≡◌, refl, sym, ap, ◌∙◌, subst, inl, inr, Bool, true, false, Option, none, some, [],
  if◌then◌else◌, Bool-cases,
}
use thunder_go.Cache.{Cache, get, invalidate}
use thunder_go.Cache.Coherence.{
  IsCoherent, get_sound, get-IsCoherent, set_entry-IsCoherent, invalidate-IsCoherent,
}
use thunder_go.Prelude.Text.{Text, is_empty}
use thunder_go.Store.{FileRecord}
use thunder_go.Store.Files.{
  Collection, Files, after_insert, insert_file, finish_find_by_key, after_get_by_key,
  find_file_by_key, finish_find_by_hash, after_get_by_hash, find_file_by_hash, evict_file,
  after_replace, write_replacement, with_old_hash, cached_hash, replace_cached, replace_file,
  evict_key,
}
use thunder_go.Store.Files.Current.{
  AllNamed, written-AllNamed, OfHash, Current, kept-Current, install-Current, evict_file-Current,
}
use thunder_go.Store.Files.Honest.{View, IsNamed, Honest, OfKey}

module _ {S : Type 0} (db : Collection S) (v : View S) (h : Honest db v) where
  pub insert_file-Current :
      (now : ℕ) (f : FileRecord) (st : Files S)
      → IsNamed f
      → Current db v st
      → Current db v (insert_file db now f st).1
  unfolding insert_file
  insert_file-Current now f st n cur = go (db.insert_one f st.files) refl
    where
      keep : (s' : S) → (db.insert_one f st.files).1 ≡ s' → Current db v (record st { files = s' })
      keep s' e =
          kept-Current db v h st s'
            (λ k d p. subst (λ s. v.by_key k s ≡ some d) e (h.insert_keeps f k st.files d p))
            (subst (λ s. AllNamed db v s) e
              (written-AllNamed db v f st.files _ n (λ k d. h.insert_only f k st.files d)
                cur.named))
            cur

      go :
          (r : Bool × S)
          → db.insert_one f st.files ≡ r
          → Current db v (after_insert db now f st r).1
      go (true, s') e =
          unfold after_insert in
          install-Current db v h now f (record st { files = s' })
            (subst (λ s. OfKey db v s f.file_key f) (ap (λ r. r.1) e)
              (h.insert_ok f st.files (ap (λ r. r.0) e)))
            (keep s' (ap (λ r. r.1) e))
      go (false, s') e = unfold after_insert in keep s' (ap (λ r. r.1) e)

  pub invalidate_again :
      (Q : Text → FileRecord → Type 0) (k : Text) (c : Cache FileRecord)
      → IsCoherent Q c
      → IsCoherent Q (invalidate k c)
  invalidate_again Q k c = invalidate-IsCoherent Q Q k c (λ j g t p. p)

  evict_again :
      (old : Text) (f : FileRecord) (st : Files S)
      → Current db v st
      → Current db v (evict_file db old f st)
  unfolding evict_file
  evict_again old f st cur = record {
    named = cur.named;
    keys = invalidate_again (OfKey db v st.files) f.file_key st.file_by_key cur.keys;
    hashes = invalidate_again (OfHash db v st.files) f.hash _ (elim (Bool-cases (is_empty old)) [
      | inl e ↦ rw e cur.hashes
      | inr e ↦ rw e (invalidate_again (OfHash db v st.files) old st.file_by_hash cur.hashes)
    ]);
  }

  -- The replacement, with the hash that the key has had.
  write_replacement-Current :
      (now : ℕ) (old : Text) (f : FileRecord) (st : Files S)
      → ((e : FileRecord) → v.by_key f.file_key st.files ≡ some e → e.hash ≡ old)
      → IsNamed f
      → Current db v st
      → Current db v (write_replacement db now old f st).1
  unfolding write_replacement
  write_replacement-Current now old f st known n cur = go (db.replace_one f st.files) refl
    where
      evicted :
          (s' : S)
          → (db.replace_one f st.files).1 ≡ s'
          → Current db v (record (evict_file db old f st) { files = s' })
      evicted s' e =
          evict_file-Current db v h old f st s' known
            (λ k d t p. subst (λ s. v.by_key k s ≡ some d) e (h.replace_keeps f k st.files d t p))
            (subst (λ s. AllNamed db v s) e
              (written-AllNamed db v f st.files _ n (λ k d. h.replace_only f k st.files d)
                cur.named))
            cur

      go :
          (r : Bool × S)
          → db.replace_one f st.files ≡ r
          → Current db v (after_replace db now old f (evict_file db old f st) r).1
      go (true, s') e =
          unfold after_replace in
          install-Current db v h now f
            (evict_file db old f (record (evict_file db old f st) { files = s' }))
            (unfold evict_file in
              subst (λ s. OfKey db v s f.file_key f) (ap (λ r. r.1) e)
                (h.replace_ok f st.files (ap (λ r. r.0) e)))
            (evict_again old f (record (evict_file db old f st) { files = s' })
              (evicted s' (ap (λ r. r.1) e)))
      go (false, s') e = unfold after_replace in evicted s' (ap (λ r. r.1) e)

  pub if-Current :
      (b : Bool) (x y : Bool × Files S)
      → Current db v x.1
      → Current db v y.1
      → Current db v (if b then x else y).1
  if-Current true x y p q = p
  if-Current false x y p q = q

  -- The cached record, or the database's, tells the hash that the key has had.
  with_old_hash-Current :
      (now : ℕ) (f : FileRecord) (st : Files S) (o : Option (Option FileRecord))
      → db.find_one_by_key f.file_key st.files ≡ o
      → IsNamed f
      → Current db v st
      → Current db v (with_old_hash db now f st o).1
  unfolding with_old_hash
  with_old_hash-Current now f st none e n cur = cur
  with_old_hash-Current now f st (some none) e n cur =
      let there = h.finds_key f.file_key st.files none e in
      write_replacement-Current now [] f st (λ d p. cc) n cur
  with_old_hash-Current now f st (some (some old)) e n cur =
      let there = h.finds_key f.file_key st.files (some old) e in
      write_replacement-Current now old.hash f st
        (λ d p. let same : d ≡ old = cc in ap (λ r. r.hash) same) n cur

  replace_cached-Current :
      (now : ℕ) (f : FileRecord) (st : Files S) (o : Option FileRecord)
      → ((g : FileRecord) → o ≡ some g → OfKey db v st.files f.file_key g)
      → IsNamed f
      → Current db v st
      → Current db v (replace_cached db now f st (cached_hash db o)).1
  unfolding replace_cached cached_hash
  replace_cached-Current now f st none known n cur =
      unfold is_empty in with_old_hash-Current now f st _ refl n cur
  replace_cached-Current now f st (some g) known n cur =
      let (d, there, same) = known g refl in
      if-Current (is_empty g.hash) _ _ (with_old_hash-Current now f st _ refl n cur) (
        write_replacement-Current now g.hash f st
          (λ x p. let one : x ≡ d = cc in ap (λ r. r.hash) one ∙ sym (ap (λ r. r.hash) same)) n cur)

  pub got_key :
      (now : ℕ) (k : Text) (st : Files S)
      → Current db v st
      → Current db v (record st { file_by_key = (get now k st.file_by_key).1 })
  got_key now k st cur = record {
    named = cur.named;
    keys = get-IsCoherent (OfKey db v st.files) now k st.file_by_key cur.keys;
    hashes = cur.hashes;
  }

  pub got_hash :
      (now : ℕ) (k : Text) (st : Files S)
      → Current db v st
      → Current db v (record st { file_by_hash = (get now k st.file_by_hash).1 })
  got_hash now k st cur = record {
    named = cur.named;
    keys = cur.keys;
    hashes = get-IsCoherent (OfHash db v st.files) now k st.file_by_hash cur.hashes;
  }

  pub replace_file-Current :
      (now : ℕ) (f : FileRecord) (st : Files S)
      → IsNamed f
      → Current db v st
      → Current db v (replace_file db now f st).1
  unfolding replace_file
  replace_file-Current now f st n cur =
      replace_cached-Current now f _ (get now f.file_key st.file_by_key).0
        (λ g e. get_sound (OfKey db v st.files) now f.file_key st.file_by_key g cur.keys e) n
        (got_key now f.file_key st cur)

  -- A read puts what it finds in the cache.
  pub find_file_by_key-Current :
      (now : ℕ) (k : Text) (st : Files S)
      → Current db v st
      → Current db v (find_file_by_key db now k st).1
  unfolding find_file_by_key
  find_file_by_key-Current now k st cur = go (get now k st.file_by_key) (got_key now k st cur)
    where
      finish :
          (c : Cache FileRecord) (o : Option (Option FileRecord))
          → db.find_one_by_key k st.files ≡ o
          → Current db v (record st { file_by_key = c })
          → Current db v (finish_find_by_key db now k (record st { file_by_key = c }) o).1
      finish c none e cur' = unfold finish_find_by_key in cur'
      finish c (some none) e cur' = unfold finish_find_by_key in cur'
      finish c (some (some f)) e cur' =
          unfold finish_find_by_key in
          record {
            named = cur'.named;
            keys =
                set_entry-IsCoherent (OfKey db v st.files) now k f c
                  (f, h.finds_key k st.files (some f) e, refl) cur'.keys;
            hashes = cur'.hashes;
          }

      go :
          (r : Option FileRecord × Cache FileRecord)
          → Current db v (record st { file_by_key = r.1 })
          → Current db v (after_get_by_key db now k st r).1
      go (some f, c) cur' = unfold after_get_by_key in cur'
      go (none, c) cur' = unfold after_get_by_key in finish c _ refl cur'

  pub find_file_by_hash-Current :
      (now : ℕ) (k : Text) (st : Files S)
      → Current db v st
      → Current db v (find_file_by_hash db now k st).1
  unfolding find_file_by_hash
  find_file_by_hash-Current now k st cur = go (get now k st.file_by_hash) (got_hash now k st cur)
    where
      finish :
          (c : Cache FileRecord) (o : Option (Option FileRecord))
          → db.find_one_by_hash k st.files ≡ o
          → Current db v (record st { file_by_hash = c })
          → Current db v (finish_find_by_hash db now k (record st { file_by_hash = c }) o).1
      finish c none e cur' = unfold finish_find_by_hash in cur'
      finish c (some none) e cur' = unfold finish_find_by_hash in cur'
      finish c (some (some f)) e cur' =
          unfold finish_find_by_hash in
          record {
            named = cur'.named;
            keys = cur'.keys;
            hashes =
                set_entry-IsCoherent (OfHash db v st.files) now k f c
                  (f, h.finds_hash k st.files (some f) e, refl) cur'.hashes;
          }

      go :
          (r : Option FileRecord × Cache FileRecord)
          → Current db v (record st { file_by_hash = r.1 })
          → Current db v (after_get_by_hash db now k st r).1
      go (some f, c) cur' = unfold after_get_by_hash in cur'
      go (none, c) cur' = unfold after_get_by_hash in finish c _ refl cur'

  pub evict_key-Current :
      (key : Text) (st : Files S) → Current db v st → Current db v (evict_key db key st)
  unfolding evict_key
  evict_key-Current key st cur = elim (Bool-cases (is_empty key)) [
    | inl e ↦ rw e cur
    | inr e ↦ rw e (record {
      named = cur.named;
      keys = invalidate_again (OfKey db v st.files) key st.file_by_key cur.keys;
      hashes = cur.hashes;
    })
  ]
