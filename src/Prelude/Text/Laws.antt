-- ===== src/Prelude/Text/Laws.antt =====
-- Laws of the text functions.
use thunder_go.Prelude.{
  ℕ, ◌<◌, ◌≡◌, refl, subst, ◌↔◌, Bool, true, false, none, some, [], ◌∷◌, ◌++◌, arith, length, All,
}
use thunder_go.Prelude.Text.{
  is_empty, Text, text_eq, is_space, trim_left, trim_right, trim_space, strip_prefix, cut,
}

pub eq_of-text_eq : (s t : Text) → text_eq s t ≡ true → s ≡ t
unfolding text_eq
eq_of-text_eq [] [] h = refl
eq_of-text_eq [] (d ∷ t) h = cc
eq_of-text_eq (c ∷ s) [] h = cc
eq_of-text_eq (c ∷ s) (d ∷ t) h = ground (arith, eq_of-text_eq s t)

pub text_eq_refl : (s : Text) → text_eq s s ≡ true
unfolding text_eq
text_eq_refl [] = refl
text_eq_refl (c ∷ s) = ground (arith, text_eq_refl s)

pub text_eq_iff : (s t : Text) → (text_eq s t ≡ true) ↔ (s ≡ t)
text_eq_iff s t = (eq_of-text_eq s t, λ e. subst (λ x. text_eq s x ≡ true) e (text_eq_refl s))

pub strip_prefix-append : (p s : Text) → strip_prefix p (p ++ s) ≡ some s
unfolding strip_prefix
strip_prefix-append [] s = refl
strip_prefix-append (c ∷ p) s = ground (arith, strip_prefix-append p s)

-- A text that holds no separator before its first one is cut there.
pub cut-append :
    (sep : ℕ) (s t : Text) → All (λ c. (c ≡ sep) → ⊥) s → cut sep (s ++ sep ∷ t) ≡ some (s, t)
unfolding cut
cut-append sep [] t h = ground arith
cut-append sep (c ∷ s) t h = ground (arith, cut-append sep s t h.1, h.0)

pub cut-eq-none : (sep : ℕ) (s : Text) → All (λ c. (c ≡ sep) → ⊥) s → cut sep s ≡ none
unfolding cut
cut-eq-none sep [] h = refl
cut-eq-none sep (c ∷ s) h = ground (arith, cut-eq-none sep s h.1, h.0)

module _ (p : ℕ → Bool) where
  pub trim_left_id : (s : Text) → All (λ c. p c ≡ false) s → trim_left p s ≡ s
  unfolding trim_left
  trim_left_id [] h = refl
  trim_left_id (c ∷ s) h = rw h.0

  pub trim_right_id : (s : Text) → All (λ c. p c ≡ false) s → trim_right p s ≡ s
  unfolding trim_right
  trim_right_id [] h = refl
  trim_right_id (c ∷ s) h = rw (h.0, trim_right_id s h.1)

pub trim_space_id : (s : Text) → All (λ c. is_space c ≡ false) s → trim_space s ≡ s
unfolding trim_space
trim_space_id s h = rw (trim_left_id is_space s h, trim_right_id is_space s h)

module _ (p : ℕ → Bool) where
  trim_right_twice : (s : Text) → trim_right p (trim_right p s) ≡ trim_right p s
  unfolding trim_right
  trim_right_twice [] = refl
  trim_right_twice (c ∷ s) = ground (arith, trim_right_twice s)

  -- Nothing is left to trim on the left after both trims.
  trim_left-trim_right :
      (s : Text) → trim_left p (trim_right p (trim_left p s)) ≡ trim_right p (trim_left p s)
  unfolding trim_left trim_right
  trim_left-trim_right [] = refl
  trim_left-trim_right (c ∷ s) = ground (arith, trim_left-trim_right s)

pub trim_space_twice : (s : Text) → trim_space (trim_space s) ≡ trim_space s
unfolding trim_space
trim_space_twice s =
    rw (trim_left-trim_right is_space s, trim_right_twice is_space (trim_left is_space s))

pub is_empty_of_pos : (s : Text) → 0 < length s → is_empty s ≡ false
unfolding is_empty
is_empty_of_pos [] h = absurd (omega arith)
is_empty_of_pos (c ∷ s) h = refl
