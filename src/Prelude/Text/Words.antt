-- ===== src/Prelude/Text/Words.antt =====
-- The words of a text: Go's `strings.Fields`, and `strings.Join` with a space.
use thunder_go.Prelude.{List, [], ◌∷◌, ◌++◌, if◌then◌else◌}
use thunder_go.Prelude.Text.{Text, is_space}

abbrev pub word : Text → List Text
word [] = []
word (c ∷ s) = (c ∷ s) ∷ []

-- The word that the text starts with, which is empty before a space, and the others.
split_words : Text → Text × List Text
unfolding is_space
split_words [] = ([], [])
split_words (c ∷ s) =
    let rest = split_words s in
    if is_space c then ([], word rest.0 ++ rest.1) else (c ∷ rest.0, rest.1)

unfoldable pub fields : Text → List Text
unfolding split_words
fields s = let r = split_words s in word r.0 ++ r.1

unfoldable pub join_words : List Text → Text
join_words [] = []
join_words (w ∷ []) = w
join_words (w ∷ v ∷ ws) = w ++ 32 ∷ join_words (v ∷ ws)
