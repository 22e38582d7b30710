-- ===== src/Store/Files/Deletes.antt =====
-- internal/store/store.go: `DeleteFileByHash` and `IncrementReuseCount` keep the caches right.
use thunder_go.Prelude.{
  ℕ, ◌≡◌, refl, sym, ap, ◌∙◌, subst, inl, inr, Bool, true, false, Option, none, some, arith,
  if◌then◌else◌, Bool-cases,
}
use thunder_go.Cache.{get, invalidate}
use thunder_go.Cache.Coherence.{IsCoherent, IsCoherent-weaken, get_sound, invalidate-IsCoherent}
use thunder_go.Prelude.Text.{Text, text_eq, is_empty}
use thunder_go.Prelude.Text.Laws.{text_eq_iff}
use thunder_go.Store.{FileRecord}
use thunder_go.Store.Files.{
  Collection, Files, evict_key, after_delete, write_deletion, with_key, cached_key, delete_cached,
  delete_file_by_hash, increment_reuse_count,
}
use thunder_go.Store.Files.Calls.{invalidate_again, if-Current, got_hash, evict_key-Current}
use thunder_go.Store.Files.Current.{AllNamed, OfHash, Current, moved}
use thunder_go.Store.Files.Honest.{View, IsSame-IsNamed, Honest, OfKey}

module _ {S : Type 0} (db : Collection S) (v : View S) (h : Honest db v) where
  -- The state before the database deletes the record of a hash.
  abbrev cleared : Text → Files S → Files S
  cleared hash st = record st { file_by_hash = invalidate hash st.file_by_hash }

  -- The record of the hash has the key.
  abbrev HasKey : Text → Text → S → Type 0
  HasKey hash key s = (d : FileRecord) → v.by_hash hash s ≡ some d → d.file_key ≡ key

  -- A record that is deleted has the key.
  deleted_key :
      (hash key : Text) (s : S) (j : Text) (d : FileRecord)
      → AllNamed db v s
      → HasKey hash key s
      → v.by_key j s ≡ some d
      → text_eq hash d.hash ≡ true
      → (j ≡ key) × (is_empty key ≡ false)
  deleted_key hash key s j d named known e same =
      let at = h.key_found j s d e in
      let there =
        subst (λ t. v.by_hash t s ≡ some d) (sym ((text_eq_iff hash d.hash).0 same)) at.1 in
      let key_same = known d there in
      (sym at.0 ∙ key_same, subst (λ t. is_empty t ≡ false) key_same (named j d e).0)

  deleted-keys :
      (hash key : Text) (st : Files S)
      → HasKey hash key st.files
      → Current db v st
      → IsCoherent
          (OfKey db v (db.delete_one hash st.files).1)
          (if is_empty key then st.file_by_key else invalidate key st.file_by_key)
  deleted-keys hash key st known cur = elim (Bool-cases (is_empty key)) [
    | inl e ↦ rw e (
        IsCoherent-weaken (OfKey db v st.files) (OfKey db v (db.delete_one hash st.files).1)
          st.file_by_key
          (λ j g p. elim (Bool-cases (text_eq hash p.0.hash)) [
            | inl same ↦
                let c = (deleted_key hash key st.files j p.0 cur.named known p.1 same).1 in
                absurd (ground arith)
            | inr other ↦ (p.0, h.delete_keeps hash j st.files p.0 other p.1, p.2)
          ])
          cur.keys)
    | inr e ↦ rw e (
        invalidate-IsCoherent (OfKey db v st.files) (OfKey db v (db.delete_one hash st.files).1) key
          st.file_by_key
          (λ j g t p. elim (Bool-cases (text_eq hash p.0.hash)) [
            | inl same ↦
                let c =
                  (text_eq_iff key j).1
                    (sym (deleted_key hash key st.files j p.0 cur.named known p.1 same).0) in
                absurd (ground arith)
            | inr other ↦ (p.0, h.delete_keeps hash j st.files p.0 other p.1, p.2)
          ])
          cur.keys)
  ]

  deleted-hashes :
      (hash : Text) (st : Files S)
      → Current db v st
      → IsCoherent (OfHash db v (db.delete_one hash st.files).1) (invalidate hash st.file_by_hash)
  deleted-hashes hash st cur =
      invalidate-IsCoherent (OfHash db v st.files) (OfHash db v (db.delete_one hash st.files).1)
        hash st.file_by_hash
        (λ j g t p.
          let other =
            subst (λ x. text_eq hash x ≡ false) (sym (h.hash_found j st.files p.0 p.1).0) t in
          (
            p.0,
            moved db v h st.files _ j p.0 p.1 (λ k e. h.delete_keeps hash k st.files p.0 other e),
            p.2,
          ))
        cur.hashes

  evict_key-parts :
      (key : Text) (st : Files S) (s' : S)
      → IsCoherent
          (OfKey db v s')
          (if is_empty key then st.file_by_key else invalidate key st.file_by_key)
      → IsCoherent (OfHash db v s') st.file_by_hash
      → AllNamed db v s'
      → Current db v (record (evict_key db key st) { files = s' })
  unfolding evict_key
  evict_key-parts key st s' p q n = elim (Bool-cases (is_empty key)) [
    | inl e ↦ rw e (record { named = n; keys = rw e at p; hashes = q })
    | inr e ↦ rw e (record { named = n; keys = rw e at p; hashes = q })
  ]

  cleared-Current : (hash : Text) (st : Files S) → Current db v st → Current db v (cleared hash st)
  cleared-Current hash st cur = record {
    named = cur.named;
    keys = cur.keys;
    hashes = invalidate_again db v h (OfHash db v st.files) hash st.file_by_hash cur.hashes;
  }

  write_deletion-Current :
      (hash key : Text) (st : Files S)
      → HasKey hash key st.files
      → Current db v st
      → Current db v (write_deletion db hash key (cleared hash st)).1
  unfolding write_deletion
  write_deletion-Current hash key st known cur = go (db.delete_one hash st.files) refl
    where
      evicted :
          Current db v (record (evict_key db key (cleared hash st)) {
            files = (db.delete_one hash st.files).1;
          })
      evicted =
          evict_key-parts key (cleared hash st) (db.delete_one hash st.files).1
            (deleted-keys hash key st known cur) (deleted-hashes hash st cur)
            (λ k d e. cur.named k d (h.delete_only hash k st.files d e))

      go :
          (r : Bool × S)
          → db.delete_one hash st.files ≡ r
          → Current db v (after_delete db hash key (evict_key db key (cleared hash st)) r).1
      go (true, s') e =
          unfold after_delete in
          evict_key-Current db v h key _ (
            cleared-Current hash (record (evict_key db key (cleared hash st)) { files = s' })
              (subst (λ s. Current db v (record (evict_key db key (cleared hash st)) { files = s }))
                (ap (λ r. r.1) e) evicted))
      go (false, s') e =
          unfold after_delete in
          subst (λ s. Current db v (record (evict_key db key (cleared hash st)) { files = s }))
            (ap (λ r. r.1) e) evicted

  with_key-Current :
      (hash : Text) (st : Files S) (o : Option (Option FileRecord))
      → db.find_one_by_hash hash st.files ≡ o
      → Current db v st
      → Current db v (with_key db hash (cleared hash st) o).1
  unfolding with_key
  with_key-Current hash st none e cur = cleared-Current hash st cur
  with_key-Current hash st (some none) e cur = cleared-Current hash _ (cleared-Current hash st cur)
  with_key-Current hash st (some (some f)) e cur =
      let there = h.finds_hash hash st.files (some f) e in
      write_deletion-Current hash f.file_key st
        (λ d p. let same : d ≡ f = cc in ap (λ r. r.file_key) same) cur

  delete_cached-Current :
      (hash : Text) (st : Files S) (o : Option FileRecord)
      → ((g : FileRecord) → o ≡ some g → OfHash db v st.files hash g)
      → Current db v st
      → Current db v (delete_cached db hash (cleared hash st) (cached_key db o)).1
  unfolding delete_cached cached_key
  delete_cached-Current hash st none known cur =
      unfold is_empty in with_key-Current hash st _ refl cur
  delete_cached-Current hash st (some g) known cur =
      let (d, there, same) = known g refl in
      if-Current db v h (is_empty g.file_key) _ _ (with_key-Current hash st _ refl cur) (
        write_deletion-Current hash g.file_key st
          (λ x p.
            let one : x ≡ d = cc in ap (λ r. r.file_key) one ∙ sym (ap (λ r. r.file_key) same))
          cur)

  pub delete_file_by_hash-Current :
      (now : ℕ) (hash : Text) (st : Files S)
      → Current db v st
      → Current db v (delete_file_by_hash db now hash st).1
  unfolding delete_file_by_hash
  delete_file_by_hash-Current now hash st cur =
      delete_cached-Current hash (record st { file_by_hash = (get now hash st.file_by_hash).1 })
        (get now hash st.file_by_hash).0
        (λ g e. get_sound (OfHash db v st.files) now hash st.file_by_hash g cur.hashes e)
        (got_hash db v h now hash st cur)

  pub increment_reuse_count-Current :
      (key : Text) (st : Files S)
      → Current db v st
      → Current db v (increment_reuse_count db key st).1
  unfolding increment_reuse_count
  increment_reuse_count-Current key st cur = record {
    named = λ k e at.
        let (d, old, same) = h.update_only key k st.files e at in
        IsSame-IsNamed d e same (cur.named k d old);
    keys =
        IsCoherent-weaken (OfKey db v st.files) (OfKey db v (db.update_one key st.files).1)
          st.file_by_key
          (λ j g p.
            let (e, at, same) = h.update_keeps key j st.files p.0 p.1 in (e, at, p.2 ∙ same))
          cur.keys;
    hashes =
        IsCoherent-weaken (OfHash db v st.files) (OfHash db v (db.update_one key st.files).1)
          st.file_by_hash
          (λ j g p.
            let old = h.hash_found j st.files p.0 p.1 in
            let (e, at, same) = h.update_keeps key p.0.file_key st.files p.0 old.1 in
            (
              e,
              subst (λ t. v.by_hash t (db.update_one key st.files).1 ≡ some e)
                  (sym (ap (λ r. r.hash) same) ∙ old.0) (h.key_found p.0.file_key _ e at).1,
              p.2 ∙ same,
            ))
          cur.hashes;
  }
