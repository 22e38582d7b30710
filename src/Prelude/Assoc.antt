-- ===== src/Prelude/Assoc.antt =====
-- Association lists over keys with a Boolean equality: Go's maps, and database collections. The
-- program never depends on the order in which a map is read.
use thunder_go.Prelude.{
  ◌≡◌, refl, ◌↔◌, Bool, true, Option, none, some, List, [], ◌∷◌, arith, if◌then◌else◌,
}

module _ {ℓ κ} {K : Type κ} {V : Type ℓ} (eq : K → K → Bool) where
  -- m[k]
  unfoldable pub lookup : K → List (K × V) → Option V
  lookup k [] = none
  lookup k ((j, v) ∷ m) = if eq j k then some v else lookup k m

  -- delete(m, k)
  unfoldable pub remove : K → List (K × V) → List (K × V)
  remove k [] = []
  remove k ((j, v) ∷ m) = let rest = remove k m in if eq j k then rest else (j, v) ∷ rest

  -- m[k] = v
  unfoldable pub insert : K → V → List (K × V) → List (K × V)
  insert k v m = (k, v) ∷ remove k m

module _ {ℓ κ} {K : Type κ} {V : Type ℓ} where
  -- What is left when the entries that fail a test are deleted.
  unfoldable pub keep : (V → Bool) → List (K × V) → List (K × V)
  keep p [] = []
  keep p ((j, v) ∷ m) = let rest = keep p m in if p v then (j, v) ∷ rest else rest

module _ {ℓ κ} {K : Type κ} {V : Type ℓ} (eq : K → K → Bool)
    (eq_iff : (a b : K) → (eq a b ≡ true) ↔ (a ≡ b)) where
  pub lookup-remove :
      (k j : K) (m : List (K × V))
      → lookup eq j (remove eq k m) ≡ (if eq k j then none else lookup eq j m)
  unfolding lookup remove
  lookup-remove k j [] = ground arith
  lookup-remove k j ((i, v) ∷ m) =
      ground (arith, lookup-remove k j m, eq_iff i k, eq_iff i j, eq_iff k j)

  pub lookup-insert :
      (k j : K) (v : V) (m : List (K × V))
      → lookup eq j (insert eq k v m) ≡ (if eq k j then some v else lookup eq j m)
  unfolding insert lookup
  lookup-insert k j v m = ground (arith, lookup-remove k j m)

  pub lookup-insert_self :
      (k : K) (v : V) (m : List (K × V)) → lookup eq k (insert eq k v m) ≡ some v
  lookup-insert_self k v m = rw (lookup-insert k k v m, (eq_iff k k).1 refl)
