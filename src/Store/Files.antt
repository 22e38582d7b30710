-- ===== src/Store/Files.antt =====
-- internal/store/store.go: the records of the files, over two caches. The MongoDB collection is a
-- parameter: a state, and what each call returns and does to it.
pub mod Honest
pub mod Current
pub mod Calls
pub mod Deletes
pub mod Steps
pub mod Reads
use thunder_go.Prelude.{
  ℕ, zero, suc, ◌+◌, ◌-◌, ◌*◌, ◌/◌, ◌%◌, ◌^◌, ◌≤◌, ◌<◌, min, max, ◌≡◌, refl, sym, ap, ◌∙◌, subst,
  ◌≢◌, ◌↔◌, ◌⊎◌, inl, inr, Bool, true, false, not, ◌&&◌, ◌||◌, Option, none, some, List, [], ◌∷◌,
  ◌++◌, map, append-nil, append_assoc, arith, length, get_elem?, set, take, drop, length-append,
  length-take, length-drop, All, All-append, All-map, All_at, get_elem?-append,
  get_elem?-append_length, ltb, leb, ◌==◌, if◌then◌else◌, tests, leb→le, le→leb, leb-false→lt,
  ltb→lt, lt→ltb, ltb-false→le, Bool-cases, Option-cases,
}
use thunder_go.Cache.{Cache, get, set_entry, invalidate}
use thunder_go.Prelude.Text.{Text, is_empty}
use thunder_go.Store.{FileRecord}

pub record Collection (S : Type 0) : Type 0 where
  -- the writes: whether there was no error, and the state after the call
  pub insert_one : FileRecord → S → Bool × S
  pub replace_one : FileRecord → S → Bool × S
  pub delete_one : Text → S → Bool × S
  -- `$inc` of the reuse count of the record of a key
  pub update_one : Text → S → Bool × S
  -- `FindOne` by key and by hash: an error, or a record if there is one
  pub find_one_by_key : Text → S → Option (Option FileRecord)
  pub find_one_by_hash : Text → S → Option (Option FileRecord)

pub record Files (S : Type 0) : Type 0 where
  pub files : S
  pub file_by_hash : Cache FileRecord
  pub file_by_key : Cache FileRecord

module _ {S : Type 0} (db : Collection S) where
  -- `set` in both caches.
  pub install : ℕ → FileRecord → Files S → Files S
  install now f st = record st {
    file_by_hash = set_entry now f.hash f st.file_by_hash;
    file_by_key = set_entry now f.file_key f st.file_by_key;
  }

  after_insert : ℕ → FileRecord → Files S → Bool × S → Bool × Files S
  unfolding install
  after_insert now f st (true, s) = (true, install now f (record st { files = s }))
  after_insert now f st (false, s) = (false, record st { files = s })

  -- The flag says that there was no error.
  unfoldable pub insert_file : ℕ → FileRecord → Files S → Bool × Files S
  unfolding after_insert
  insert_file now f st = after_insert now f st (db.insert_one f st.files)

  finish_find_by_key :
      ℕ → Text → Files S → Option (Option FileRecord) → Option (Option FileRecord) × Files S
  finish_find_by_key now key st none = (none, st)
  finish_find_by_key now key st (some none) = (some none, st)
  finish_find_by_key now key st (some (some f)) =
      (some (some f), record st { file_by_key = set_entry now key f st.file_by_key })

  after_get_by_key :
      ℕ
      → Text
      → Files S
      → Option FileRecord × Cache FileRecord
      → Option (Option FileRecord) × Files S
  unfolding finish_find_by_key
  after_get_by_key now key st (some f, c) = (some (some f), record st { file_by_key = c })
  after_get_by_key now key st (none, c) =
      finish_find_by_key now key (record st { file_by_key = c }) (db.find_one_by_key key st.files)

  -- An error, or a record if there is one.
  unfoldable pub find_file_by_key : ℕ → Text → Files S → Option (Option FileRecord) × Files S
  unfolding after_get_by_key
  find_file_by_key now key st = after_get_by_key now key st (get now key st.file_by_key)

  finish_find_by_hash :
      ℕ → Text → Files S → Option (Option FileRecord) → Option (Option FileRecord) × Files S
  finish_find_by_hash now hash st none = (none, st)
  finish_find_by_hash now hash st (some none) = (some none, st)
  finish_find_by_hash now hash st (some (some f)) =
      (some (some f), record st { file_by_hash = set_entry now hash f st.file_by_hash })

  after_get_by_hash :
      ℕ
      → Text
      → Files S
      → Option FileRecord × Cache FileRecord
      → Option (Option FileRecord) × Files S
  unfolding finish_find_by_hash
  after_get_by_hash now hash st (some f, c) = (some (some f), record st { file_by_hash = c })
  after_get_by_hash now hash st (none, c) =
      finish_find_by_hash now hash (record st { file_by_hash = c })
        (db.find_one_by_hash hash st.files)

  unfoldable pub find_file_by_hash : ℕ → Text → Files S → Option (Option FileRecord) × Files S
  unfolding after_get_by_hash
  find_file_by_hash now hash st = after_get_by_hash now hash st (get now hash st.file_by_hash)

  -- The old hash goes from its cache if it is known, and so do the key and the new hash.
  pub evict_file : Text → FileRecord → Files S → Files S
  unfolding is_empty
  evict_file old f st = record st {
    file_by_key = invalidate f.file_key st.file_by_key;
    file_by_hash =
        invalidate f.hash
          (if is_empty old then st.file_by_hash else invalidate old st.file_by_hash);
  }

  after_replace : ℕ → Text → FileRecord → Files S → Bool × S → Bool × Files S
  unfolding evict_file install
  after_replace now old f st (false, s) = (false, record st { files = s })
  after_replace now old f st (true, s) =
      (true, install now f (evict_file old f (record st { files = s })))

  write_replacement : ℕ → Text → FileRecord → Files S → Bool × Files S
  unfolding after_replace evict_file
  write_replacement now old f st =
      after_replace now old f (evict_file old f st) (db.replace_one f st.files)

  -- The old hash that the database knows, or the empty text; an error ends the call.
  with_old_hash : ℕ → FileRecord → Files S → Option (Option FileRecord) → Bool × Files S
  unfolding write_replacement
  with_old_hash now f st none = (false, st)
  with_old_hash now f st (some none) = write_replacement now [] f st
  with_old_hash now f st (some (some old)) = write_replacement now old.hash f st

  cached_hash : Option FileRecord → Text
  cached_hash none = []
  cached_hash (some old) = old.hash

  replace_cached : ℕ → FileRecord → Files S → Text → Bool × Files S
  unfolding with_old_hash is_empty
  replace_cached now f st old =
      if is_empty old
      then with_old_hash now f st (db.find_one_by_key f.file_key st.files)
      else write_replacement now old f st

  unfoldable pub replace_file : ℕ → FileRecord → Files S → Bool × Files S
  unfolding replace_cached cached_hash
  replace_file now f st =
      let (cached, c) = get now f.file_key st.file_by_key in
      replace_cached now f (record st { file_by_key = c }) (cached_hash cached)

  pub evict_key : Text → Files S → Files S
  unfolding is_empty
  evict_key key st =
      if is_empty key then st else record st { file_by_key = invalidate key st.file_by_key }

  after_delete : Text → Text → Files S → Bool × S → Bool × Files S
  unfolding evict_key
  after_delete hash key st (false, s) = (false, record st { files = s })
  after_delete hash key st (true, s) = (
    true,
    evict_key key (record st { files = s; file_by_hash = invalidate hash st.file_by_hash }),
  )

  write_deletion : Text → Text → Files S → Bool × Files S
  unfolding after_delete evict_key
  write_deletion hash key st =
      after_delete hash key (evict_key key st) (db.delete_one hash st.files)

  with_key : Text → Files S → Option (Option FileRecord) → Bool × Files S
  unfolding write_deletion
  with_key hash st none = (false, st)
  with_key hash st (some none) =
      (true, record st { file_by_hash = invalidate hash st.file_by_hash })
  with_key hash st (some (some f)) = write_deletion hash f.file_key st

  cached_key : Option FileRecord → Text
  cached_key none = []
  cached_key (some f) = f.file_key

  delete_cached : Text → Files S → Text → Bool × Files S
  unfolding with_key is_empty
  delete_cached hash st key =
      if is_empty key
      then with_key hash st (db.find_one_by_hash hash st.files)
      else write_deletion hash key st

  unfoldable pub delete_file_by_hash : ℕ → Text → Files S → Bool × Files S
  unfolding delete_cached cached_key
  delete_file_by_hash now hash st =
      let (cached, c) = get now hash st.file_by_hash in
      delete_cached hash (record st { file_by_hash = invalidate hash c }) (cached_key cached)

  unfoldable pub increment_reuse_count : Text → Files S → Bool × Files S
  increment_reuse_count key st =
      let (ok, s) = db.update_one key st.files in (ok, record st { files = s })
