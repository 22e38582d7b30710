-- ===== src/Http/Redact.antt =====
-- internal/http/server.go: `redactPath`, for the access log.
use thunder_go.Prelude.{
  ℕ, zero, suc, ◌<◌, ◌≡◌, refl, ◌∙◌, not, ◌&&◌, none, some, List, [], ◌∷◌, ◌++◌, append-nil, length,
  All, if◌then◌else◌,
}
use thunder_go.Prelude.Text.{Text, codes, cut, has_prefix, is_empty}
use thunder_go.Prelude.Text.Laws.{is_empty_of_pos, cut-append, cut-eq-none}
use thunder_go.Tgutil.Hex.{token_hash}

-- strings.SplitN at slashes into one part more than the number at most.
split_n : ℕ → Text → List Text
split_n zero s = s ∷ []
split_n (suc n) s = elim (cut b'/' s) [ none ↦ s ∷ [] | some (a, b) ↦ a ∷ split_n n b ]

-- strings.Join with slashes.
join : List Text → Text
join [] = []
join (s ∷ []) = s
join (s ∷ t ∷ ts) = s ++ (b'/' ∷ join (t ∷ ts))

module _ (sha256 : Text → List ℕ) where
  redact_parts : Text → List Text → Text
  unfolding join is_empty
  redact_parts p (a ∷ b ∷ c ∷ rest) =
      if is_empty c then p else join (a ∷ b ∷ token_hash sha256 c ∷ rest)
  redact_parts p parts = p

  unfoldable pub redact_path : Text → Text
  unfolding redact_parts split_n
  redact_path p =
      if not (has_prefix p (codes "/f/")) && not (has_prefix p (codes "/activate/"))
      then p
      else redact_parts p (split_n 3 p)

-- A text that is not empty and has no slash.
abbrev pub IsSegment : Text → Type 0
IsSegment t = (0 < length t) × All (λ c. (c ≡ b'/') → ⊥) t

-- Nothing, or a slash and more.
abbrev pub IsRest : Text → Type 0
IsRest [] = Unit
IsRest (c ∷ s) = c ≡ b'/'

-- The two kinds of path that carry a token.
pub data Carrier : Type 0 where
  file_path activate_path : Carrier

abbrev pub prefix_of : Carrier → Text
prefix_of file_path = codes "/f/"
prefix_of activate_path = codes "/activate/"

split_n-token :
    (n : ℕ) (token rest : Text)
    → IsSegment token
    → split_n (suc n) (token ++ (b'/' ∷ rest)) ≡ token ∷ split_n n rest
unfolding split_n
split_n-token n token rest h = rw (cut-append b'/' token rest h.1, split_n) refl

split_n-last : (n : ℕ) (token : Text) → IsSegment token → split_n (suc n) token ≡ token ∷ []
unfolding split_n
split_n-last n token h = rw (cut-eq-none b'/' token h.1, split_n) refl

module _ (sha256 : Text → List ℕ) where
  -- What the parts of a path with a token come to.
  redact_parts-token :
      (p a b token rest : Text)
      → IsSegment token
      → IsRest rest
      → redact_parts sha256 p (a ∷ b ∷ split_n 1 (token ++ rest))
        ≡ a ++ (b'/' ∷ (b ++ (b'/' ∷ (token_hash sha256 token ++ rest))))
  redact_parts-token p a b token [] h k =
      let parts : split_n 1 (token ++ []) ≡ token ∷ [] =
        rw (append-nil token) (split_n-last 0 token h) in
      let given = is_empty_of_pos token h.0 in
      rw (parts, append-nil (token_hash sha256 token)) (unfold redact_parts join in rw given refl)
  redact_parts-token p a b token (c ∷ rest) h k =
      let parts : split_n 1 (token ++ (c ∷ rest)) ≡ token ∷ rest ∷ [] =
        rw k (split_n-token 0 token rest h ∙ unfold split_n in refl) in
      let given = is_empty_of_pos token h.0 in
      rw (parts, k) (unfold redact_parts join in rw given refl)

  -- A path to a file or to an activation is logged with the hash of its token in the place of the
  -- token, and is otherwise as it was; the token is not empty and has no slash.
  pub redact_path-token_hash :
      (c : Carrier) (token rest : Text)
      → IsSegment token
      → IsRest rest
      → redact_path sha256 (prefix_of c ++ (token ++ rest))
        ≡ prefix_of c ++ (token_hash sha256 token ++ rest)
  unfolding redact_path split_n cut has_prefix
  redact_path-token_hash file_path token rest h k =
      redact_parts-token _ [] (codes "f") token rest h k
  redact_path-token_hash activate_path token rest h k =
      redact_parts-token _ [] (codes "activate") token rest h k
