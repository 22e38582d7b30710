-- ===== src/Store/Files/Current.antt =====
-- internal/store/store.go: the caches of the files and the collection behind them.

use thunder_go.Prelude.{
  ℕ, ◌≡◌, sym, ap, ◌∙◌, subst, ◌⊎◌, inl, inr, true, false, some, arith, if◌then◌else◌, Bool-cases,
}
use thunder_go.Cache.{invalidate}
use thunder_go.Cache.Coherence.{
  IsCoherent, IsCoherent-weaken, set_entry-IsCoherent, invalidate-IsCoherent,
}
use thunder_go.Prelude.Text.{Text, text_eq, is_empty}
use thunder_go.Prelude.Text.Laws.{text_eq_iff}
use thunder_go.Store.{FileRecord}
use thunder_go.Store.Files.Honest.{View, IsSame, IsNamed, IsSame-IsNamed, OfKey, Honest}
use thunder_go.Store.Files.{Collection, Files, install, evict_file}

module _ {S : Type 0} (db : Collection S) (v : View S) where
  -- A value that a cache may have for a hash; `OfKey` says what it may have for a key.
  abbrev pub OfHash : S → Text → FileRecord → Type 0
  OfHash s h f = (d : FileRecord) × (v.by_hash h s ≡ some d) × (IsSame f d)

  -- Every record of a state has a key and a hash.
  abbrev pub AllNamed : S → Type 0
  AllNamed s = (k : Text) (d : FileRecord) → v.by_key k s ≡ some d → IsNamed d

  -- What the caches have is what the collection has, up to the counts and times.
  pub record Current (st : Files S) : Type 0 where
    pub named : AllNamed st.files
    pub keys : IsCoherent (OfKey db v st.files) st.file_by_key
    pub hashes : IsCoherent (OfHash st.files) st.file_by_hash

  -- A record that is kept under its key is kept under its hash.
  pub moved :
      (h : Honest db v) (s s' : S) (j : Text) (d : FileRecord)
      → v.by_hash j s ≡ some d
      → ((k : Text) → v.by_key k s ≡ some d → v.by_key k s' ≡ some d)
      → v.by_hash j s' ≡ some d
  moved h s s' j d e keep =
      let at = h.hash_found j s d e in
      let there = h.key_found d.file_key s' d (keep d.file_key at.1) in
      subst (λ t. v.by_hash t s' ≡ some d) at.0 there.1

  -- A write that keeps every record keeps the caches right.
  pub kept-Current :
      (h : Honest db v) (st : Files S) (s' : S)
      → ((k : Text) (d : FileRecord) → v.by_key k st.files ≡ some d → v.by_key k s' ≡ some d)
      → AllNamed s'
      → Current st
      → Current (record st { files = s' })
  kept-Current h st s' keep named cur = record {
    named = named;
    keys =
        IsCoherent-weaken (OfKey db v st.files) (OfKey db v s') st.file_by_key
          (λ j f p. (p.0, keep j p.0 p.1, p.2)) cur.keys;
    hashes =
        IsCoherent-weaken (OfHash st.files) (OfHash s') st.file_by_hash
          (λ j f p. (p.0, moved h st.files s' j p.0 p.1 (λ k. keep k p.0), p.2)) cur.hashes;
  }

  -- A record that the collection has may be put in both caches.
  pub install-Current :
      (h : Honest db v) (now : ℕ) (f : FileRecord) (st : Files S)
      → OfKey db v st.files f.file_key f
      → Current st
      → Current (install db now f st)
  unfolding install
  install-Current h now f st (d, e, same) cur = record {
    named = cur.named;
    keys =
        set_entry-IsCoherent (OfKey db v st.files) now f.file_key f st.file_by_key (d, e, same)
          cur.keys;
    hashes =
        set_entry-IsCoherent (OfHash st.files) now f.hash f st.file_by_hash
          (
            d,
            subst (λ t. v.by_hash t st.files ≡ some d) (sym (ap (λ r. r.hash) same))
                (h.key_found f.file_key st.files d e).1,
            same,
          )
          cur.hashes;
  }

  -- A record of another key than `f`.
  abbrev OtherHash : S → FileRecord → Text → FileRecord → Type 0
  OtherHash s f j g =
      (d : FileRecord) × (v.by_hash j s ≡ some d)
      × (IsSame g d)
      × (text_eq f.file_key d.file_key ≡ false)

  -- With the hash that the key had, a record of the key is a record of that hash.
  same_hash :
      (h : Honest db v) (old : Text) (f : FileRecord) (s : S) (j : Text) (d : FileRecord)
      → AllNamed s
      → ((e : FileRecord) → v.by_key f.file_key s ≡ some e → e.hash ≡ old)
      → v.by_hash j s ≡ some d
      → text_eq f.file_key d.file_key ≡ true
      → (old ≡ j) × (is_empty old ≡ false)
  same_hash h old f s j d named known e same =
      let at = h.hash_found j s d e in
      let key =
        subst (λ k. v.by_key k s ≡ some d) (sym ((text_eq_iff f.file_key d.file_key).0 same))
          at.1 in
      let old_hash = known d key in
      (sym old_hash ∙ at.0, subst (λ t. is_empty t ≡ false) old_hash (named f.file_key d key).1)

  others :
      (h : Honest db v) (old : Text) (f : FileRecord) (st : Files S)
      → AllNamed st.files
      → ((e : FileRecord) → v.by_key f.file_key st.files ≡ some e → e.hash ≡ old)
      → IsCoherent (OfHash st.files) st.file_by_hash
      → IsCoherent
          (OtherHash st.files f)
          (if is_empty old then st.file_by_hash else invalidate old st.file_by_hash)
  others h old f st named known cur = elim (Bool-cases (is_empty old)) [
    | inl e ↦ rw e (
        IsCoherent-weaken (OfHash st.files) (OtherHash st.files f) st.file_by_hash
          (λ j g p. elim (Bool-cases (text_eq f.file_key p.0.file_key)) [
            | inl same ↦
                let c = (same_hash h old f st.files j p.0 named known p.1 same).1 in
                absurd (ground arith)
            | inr other ↦ (p.0, p.1, p.2, other)
          ])
          cur)
    | inr e ↦ rw e (
        invalidate-IsCoherent (OfHash st.files) (OtherHash st.files f) old st.file_by_hash
          (λ j g t p. elim (Bool-cases (text_eq f.file_key p.0.file_key)) [
            | inl same ↦
                let c =
                  (text_eq_iff old j).1 (same_hash h old f st.files j p.0 named known p.1 same).0 in
                absurd (ground arith)
            | inr other ↦ (p.0, p.1, p.2, other)
          ])
          cur)
  ]

  -- With the key, its old hash and its new hash evicted, a write to the record of the key alone
  -- leaves the caches right.
  pub evict_file-Current :
      (h : Honest db v) (old : Text) (f : FileRecord) (st : Files S) (s' : S)
      → ((e : FileRecord) → v.by_key f.file_key st.files ≡ some e → e.hash ≡ old)
      → ((k : Text) (d : FileRecord)
          → text_eq f.file_key k ≡ false
          → v.by_key k st.files ≡ some d
          → v.by_key k s' ≡ some d)
      → AllNamed s'
      → Current st
      → Current (record (evict_file db old f st) { files = s' })
  unfolding evict_file
  evict_file-Current h old f st s' known keep named cur = record {
    named = named;
    keys =
        invalidate-IsCoherent (OfKey db v st.files) (OfKey db v s') f.file_key st.file_by_key
          (λ j g t p. (p.0, keep j p.0 t p.1, p.2)) cur.keys;
    hashes =
        invalidate-IsCoherent (OtherHash st.files f) (OfHash s') f.hash _
          (λ j g t p. (
            p.0,
            moved h st.files s' j p.0 p.1 (λ k e.
                keep k p.0
                  (subst (λ t. text_eq f.file_key t ≡ false) (h.key_found k st.files p.0 e).0 p.3)
                  e),
            p.2,
          ))
          (others h old f st cur.named known cur.hashes);
  }

  -- The records of a state after a write of a record that has a key and a hash.
  pub written-AllNamed :
      (f : FileRecord) (s s' : S)
      → IsNamed f
      → ((k : Text) (d : FileRecord)
          → v.by_key k s' ≡ some d
          → IsSame f d ⊎ (v.by_key k s ≡ some d))
      → AllNamed s
      → AllNamed s'
  written-AllNamed f s s' n only named k d e = elim (only k d e) [
    | inl same ↦ IsSame-IsNamed f d same n
    | inr old ↦ named k d old
  ]
