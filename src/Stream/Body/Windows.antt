-- ===== src/Stream/Body/Windows.antt =====
-- Windows of a list: what `take` and `drop` cut out of one another.
use thunder_go.Prelude.{
  ℕ, zero, suc, ◌+◌, ◌-◌, ◌≤◌, ◌≡◌, refl, sym, ap, ◌∙◌, List, [], ◌∷◌, ◌++◌, arith, length, take,
  drop,
}

module _ {ℓ} {A : Type ℓ} where
  take_nil : (n : ℕ) → take {A = A} n [] ≡ []
  take_nil zero = refl
  take_nil (suc n) = refl

  drop_nil : (n : ℕ) → drop {A = A} n [] ≡ []
  drop_nil zero = refl
  drop_nil (suc n) = refl

  pub drop-drop : (a b : ℕ) (xs : List A) → drop a (drop b xs) ≡ drop (b + a) xs
  drop-drop a zero xs = let e : 0 + a ≡ a = omega arith in rw e
  drop-drop a (suc b) [] = drop_nil a ∙ sym (drop_nil (suc b + a))
  drop-drop a (suc b) (x ∷ xs) =
      let e : suc b + a ≡ suc (b + a) = omega arith in rw e (drop-drop a b xs)

  pub drop-take : (a b : ℕ) (xs : List A) → drop a (take b xs) ≡ take (b - a) (drop a xs)
  drop-take zero b xs = let e : b - 0 ≡ b = omega arith in rw e
  drop-take (suc a) zero xs = let e : 0 - suc a ≡ 0 = omega arith in rw e
  drop-take (suc a) (suc b) [] = sym (take_nil (suc b - suc a))
  drop-take (suc a) (suc b) (x ∷ xs) =
      let e : suc b - suc a ≡ b - a = omega arith in rw e (drop-take a b xs)

  -- A window is its first `a` elements and those after them.
  pub take-append_take : (a b : ℕ) (xs : List A) → take a xs ++ take b (drop a xs) ≡ take (a + b) xs
  take-append_take zero b xs = let e : 0 + b ≡ b = omega arith in rw e
  take-append_take (suc a) b [] = rw (take_nil b) (sym (take_nil (suc a + b)))
  take-append_take (suc a) b (x ∷ xs) =
      let e : suc a + b ≡ suc (a + b) = omega arith in rw e (ap (◌∷◌ x) (take-append_take a b xs))

  -- The first `a` elements of what is itself a front part are a front part, as long as it is.
  pub take-take-length :
      (a b : ℕ) (xs : List A) → take a (take b xs) ≡ take (length (take a (take b xs))) xs
  take-take-length zero b xs = refl
  take-take-length (suc a) zero xs = refl
  take-take-length (suc a) (suc b) [] = refl
  take-take-length (suc a) (suc b) (x ∷ xs) = ap (◌∷◌ x) (take-take-length a b xs)

  pub take_all : (n : ℕ) (xs : List A) → length xs ≤ n → take n xs ≡ xs
  take_all zero [] h = refl
  take_all zero (x ∷ xs) h = absurd (omega arith)
  take_all (suc n) [] h = refl
  take_all (suc n) (x ∷ xs) h = ap (◌∷◌ x) (take_all n xs (omega arith))
