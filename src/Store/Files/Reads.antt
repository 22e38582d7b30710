-- ===== src/Store/Files/Reads.antt =====
-- internal/store/store.go: what `FindFileByKey` and `FindFileByHash` return.
use thunder_go.Prelude.{ℕ, ◌≡◌, refl, Option, none, some}
use thunder_go.Cache.{Cache, get}
use thunder_go.Cache.Coherence.{get_sound}
use thunder_go.Prelude.Text.{Text}
use thunder_go.Store.{FileRecord}
use thunder_go.Store.Files.{
  Collection, Files, find_file_by_key, find_file_by_hash, after_get_by_hash, finish_find_by_hash,
  after_get_by_key, finish_find_by_key,
}
use thunder_go.Store.Files.Current.{OfHash, Current}
use thunder_go.Store.Files.Honest.{View, IsSame, Honest, OfKey}

-- An answer that is right for what there is, up to the counts; an error says nothing.
abbrev pub IsRight : Option FileRecord → Option (Option FileRecord) → Type 0
IsRight there none = Unit
IsRight there (some none) = there ≡ none
IsRight there (some (some f)) = (d : FileRecord) × (there ≡ some d) × (IsSame f d)

module _ {S : Type 0} (db : Collection S) (v : View S) (h : Honest db v) (now : ℕ)
    (st : Files S) where
  key-IsRight :
      (k : Text) → Current db v st → IsRight (v.by_key k st.files) (find_file_by_key db now k st).0
  unfolding find_file_by_key
  key-IsRight k cur =
      go (get now k st.file_by_key)
        (λ f e. get_sound (OfKey db v st.files) now k st.file_by_key f cur.keys e)
    where
      finish :
          (c : Cache FileRecord) (o : Option (Option FileRecord))
          → db.find_one_by_key k st.files ≡ o
          → IsRight
              (v.by_key k st.files)
              (finish_find_by_key db now k (record st { file_by_key = c }) o).0
      finish c none e = unfold finish_find_by_key in tt
      finish c (some none) e = unfold finish_find_by_key in h.finds_key k st.files none e
      finish c (some (some f)) e =
          unfold finish_find_by_key in (f, h.finds_key k st.files (some f) e, refl)

      go :
          (r : Option FileRecord × Cache FileRecord)
          → ((f : FileRecord) → r.0 ≡ some f → OfKey db v st.files k f)
          → IsRight (v.by_key k st.files) (after_get_by_key db now k st r).0
      go (some f, c) known = unfold after_get_by_key in known f refl
      go (none, c) known = unfold after_get_by_key in finish c _ refl

  hash-IsRight :
      (k : Text)
      → Current db v st
      → IsRight (v.by_hash k st.files) (find_file_by_hash db now k st).0
  unfolding find_file_by_hash
  hash-IsRight k cur =
      go (get now k st.file_by_hash)
        (λ f e. get_sound (OfHash db v st.files) now k st.file_by_hash f cur.hashes e)
    where
      finish :
          (c : Cache FileRecord) (o : Option (Option FileRecord))
          → db.find_one_by_hash k st.files ≡ o
          → IsRight
              (v.by_hash k st.files)
              (finish_find_by_hash db now k (record st { file_by_hash = c }) o).0
      finish c none e = unfold finish_find_by_hash in tt
      finish c (some none) e = unfold finish_find_by_hash in h.finds_hash k st.files none e
      finish c (some (some f)) e =
          unfold finish_find_by_hash in (f, h.finds_hash k st.files (some f) e, refl)

      go :
          (r : Option FileRecord × Cache FileRecord)
          → ((f : FileRecord) → r.0 ≡ some f → OfHash db v st.files k f)
          → IsRight (v.by_hash k st.files) (after_get_by_hash db now k st r).0
      go (some f, c) known = unfold after_get_by_hash in known f refl
      go (none, c) known = unfold after_get_by_hash in finish c _ refl

  -- With caches that are right for the collection, and a FindOne that returns what the collection
  -- has: a look by key and a look by hash return a record only if the collection has it, up to its
  -- counts and times, and no record only if it has none.
  pub find_file-IsRight :
      (k : Text)
      → Current db v st
      → IsRight (v.by_key k st.files) (find_file_by_key db now k st).0
        × IsRight (v.by_hash k st.files) (find_file_by_hash db now k st).0
  find_file-IsRight k cur = (key-IsRight k cur, hash-IsRight k cur)
