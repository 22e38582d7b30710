-- ===== src/Http/Pages/Shown.antt =====
-- internal/http/server.go: which page is shown for which token.
use thunder_go.Prelude.{
  ℕ, ◌≡◌, refl, sym, ap, subst, ◌⊎◌, inl, inr, true, false, Option, none, some, [], ◌∷◌, ◌++◌,
  Bool-cases,
}
use thunder_go.Config.{Config}
use thunder_go.Config.Links.{file_raw_url}
use thunder_go.Http.Pages.{
  Answer, not_found, internal_error, unavailable, healthy, redirect, page, status, page_of,
  answer_of, handle_player_page,
}
use thunder_go.Prelude.Int.{pos, leb_ℤ}
use thunder_go.Prelude.Text.{Text, codes, is_empty}
use thunder_go.Store.{FileRecord}
use thunder_go.Store.Files.{Collection, Files, find_file_by_hash}
use thunder_go.Store.Files.Current.{Current}
use thunder_go.Store.Files.Honest.{View, Honest}
use thunder_go.Store.Files.Reads.{IsRight, find_file-IsRight}
use thunder_go.Tgutil.Base32.{normalize_base32}

-- What an answer says of the record that there is for the token.
abbrev pub IsShown : (Text → Text) → Config → Text → Option FileRecord → Answer → Type 0
IsShown esc cfg token there (page p) =
    (d : FileRecord) × (there ≡ some d)
    × (leb_ℤ d.size (pos 0) ≡ false)
    × (p.size ≡ d.size)
    × (p.download_url ≡ file_raw_url esc cfg d.hash p.file_name)
    × (p.stream_url ≡ p.download_url ++ codes "?disposition=inline")
IsShown esc cfg token there not_found =
    (token ≡ [])
    ⊎ ((there ≡ none) ⊎ ((d : FileRecord) × (there ≡ some d) × (leb_ℤ d.size (pos 0) ≡ true)))
IsShown esc cfg token there internal_error = Unit
IsShown esc cfg token there unavailable = ⊥
IsShown esc cfg token there healthy = ⊥
IsShown esc cfg token there (redirect t) = ⊥
IsShown esc cfg token there (status r) = ⊥

module _ (path_escape : Text → Text) (cfg : Config) where
  answer_of-IsShown :
      (token : Text) (there : Option FileRecord) (o : Option (Option FileRecord))
      → ((d : FileRecord) → there ≡ some d → d.hash ≡ token)
      → IsRight there o
      → IsShown path_escape cfg token there (answer_of path_escape cfg token o)
  unfolding answer_of page_of
  answer_of-IsShown token there none h r = tt
  answer_of-IsShown token there (some none) h r = inr (inl r)
  answer_of-IsShown token there (some (some f)) h (d, e, same) =
      elim (Bool-cases (leb_ℤ f.size (pos 0))) [
        | inl k ↦
            rw k (inr (inr (d, e, subst (λ n. leb_ℤ n (pos 0) ≡ true) (ap (λ r. r.size) same) k)))
        | inr k ↦ rw k (
          d,
          e,
          subst (λ n. leb_ℤ n (pos 0) ≡ false) (ap (λ r. r.size) same) k,
          ap (λ r. r.size) same,
          ap (λ t. file_raw_url path_escape cfg t f.file_name) (sym (h d e)),
          refl,
        )
      ]

  empty_token : (token : Text) → is_empty token ≡ true → token ≡ []
  unfolding is_empty
  empty_token [] h = refl
  empty_token (c ∷ s) h = cc

  -- With a collection that has one record for a key and for a hash, whose FindOne returns it, and in
  -- which every record has a key and a hash that are not empty, and with caches that hold only records
  -- of the collection, up to their counts and times: a page is shown only for a record that the
  -- collection has for the token, with its positive size and with links to it; a page is not found
  -- only if the token is empty, or the collection has no record for it or one without a size; else
  -- there is an error.
  pub handle_player_page-IsShown :
      {S : Type 0} (db : Collection S) (v : View S)
      → Honest db v
      → (now : ℕ) (param : Text) (st : Files S) → Current db v st
      → IsShown path_escape cfg
          (normalize_base32 param)
          (v.by_hash (normalize_base32 param) st.files)
          (handle_player_page path_escape cfg db now param st).0
  unfolding handle_player_page
  handle_player_page-IsShown db v h now param st cur =
      let token = normalize_base32 param in
      elim (Bool-cases (is_empty token)) [
        | inl e ↦ rw e (inl (empty_token token e))
        | inr e ↦ rw e (
            answer_of-IsShown token (v.by_hash token st.files) (find_file_by_hash db now token st).0
              (λ d k. (h.hash_found token st.files d k).0)
              (find_file-IsRight db v h now st token cur).1)
      ]
