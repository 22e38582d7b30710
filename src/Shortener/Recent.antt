-- ===== src/Shortener/Recent.antt =====
-- internal/shortener/shortener.go: what `put` leaves in the LRU cache.
use thunder_go.Prelude.{
  ℕ, zero, suc, ◌≤◌, ◌<◌, ◌≡◌, refl, sym, ap, inl, inr, Option, none, some, List, [], ◌∷◌, arith,
  length, take, ltb, tests, Bool-cases,
}
use thunder_go.Prelude.Assoc
use thunder_go.Prelude.Dict.{lookup, remove}
use thunder_go.Prelude.Text.{Text, text_eq}
use thunder_go.Shortener.{LruCache, put, put_found, to_front, drop_back}

remove-absent : (k : Text) (m : List (Text × Text)) → lookup k m ≡ none → remove k m ≡ m
unfolding Assoc.lookup Assoc.remove
remove-absent k [] h = refl
remove-absent k ((j, v) ∷ m) h = elim (Bool-cases (text_eq j k)) [
  | inl e ↦ absurd (ground (arith, e, h))
  | inr e ↦ rw (e, remove-absent k m (rw e at h))
]

length-remove : (k : Text) (m : List (Text × Text)) → length (remove k m) ≤ length m
unfolding Assoc.remove
length-remove k [] = omega arith
length-remove k ((j, v) ∷ m) = elim (Bool-cases (text_eq j k)) [
  | inl e ↦ rw e (omega (arith, length-remove k m))
  | inr e ↦ rw e (omega (arith, length-remove k m))
]

remove-shorter :
    (k v : Text) (m : List (Text × Text)) → lookup k m ≡ some v → length (remove k m) < length m
unfolding Assoc.lookup Assoc.remove
remove-shorter k v [] h = absurd (ground arith)
remove-shorter k v ((j, x) ∷ m) h = elim (Bool-cases (text_eq j k)) [
  | inl e ↦ rw e (omega (arith, length-remove k m))
  | inr e ↦ rw e (omega (arith, remove-shorter k v m (rw e at h)))
]

take-all : (n : ℕ) (m : List (Text × Text)) → length m ≤ n → take n m ≡ m
take-all zero [] h = refl
take-all (suc n) [] h = refl
take-all zero (x ∷ m) h = absurd (omega arith)
take-all (suc n) (x ∷ m) h = ap (λ t. x ∷ t) (take-all n m (omega arith))

drop_back-take :
    (x : Text × Text) (m : List (Text × Text)) → drop_back (x ∷ m) ≡ take (length m) (x ∷ m)
unfolding drop_back
drop_back-take x [] = refl
drop_back-take x (y ∷ m) = ap (λ t. x ∷ t) (drop_back-take y m)

-- `put` keeps the new pair and, of the pairs for other keys, those used last, as many as there is
-- room for.
put-order :
    (k v : Text) (c : LruCache)
    → 0 < c.cap
    → length c.order ≤ c.cap
    → (put k v c).order ≡ take c.cap ((k, v) ∷ remove k c.order)
unfolding put put_found to_front
put-order k v c h fits = go (lookup k c.order) refl
  where
    go :
        (o : Option Text)
        → lookup k c.order ≡ o
        → (put_found k v c o).order ≡ take c.cap ((k, v) ∷ remove k c.order)
    go (some old) e =
        sym (
          take-all c.cap ((k, v) ∷ remove k c.order)
            (omega (arith, remove-shorter k old c.order e)))
    go none e = elim (Bool-cases (ltb c.cap (suc (length c.order)))) [
      | inl over ↦
          let full : length c.order ≡ c.cap = omega (tests, over) in
          rw (over, drop_back-take (k, v) c.order, remove-absent k c.order e, full)
      | inr room ↦
          rw (room, remove-absent k c.order e)
            (sym (take-all c.cap ((k, v) ∷ c.order) (omega (tests, room))))
    ]
