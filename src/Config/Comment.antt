-- ===== src/Config/Comment.antt =====
-- internal/config/config.go: what `stripInlineComment` removes.
use thunder_go.Prelude.{
  ℕ, ◌≡◌, refl, ap, ◌∙◌, subst, ◌⊎◌, inl, inr, Bool, false, not, ◌&&◌, Option, none, some, [], ◌∷◌,
  ◌++◌, arith, ◌==◌, if◌then◌else◌, Bool-cases,
}
use thunder_go.Config.{scan, stripped, strip_inline_comment, before_comment, is_blank}
use thunder_go.Prelude.Text.{Text, trim_right, is_empty}

-- The text before a comment, and the comment.
abbrev SplitAt : Text → Text → Type 0
SplitAt s before = (t : Text) × (s ≡ before ++ b'#' ∷ t)

before_comment-SplitAt :
    (c : ℕ) (s before : Text) (o : Option Text)
    → ((b : Text) → o ≡ some b → SplitAt s b)
    → before_comment c o ≡ some before
    → SplitAt (c ∷ s) before
unfolding before_comment
before_comment-SplitAt c s before none h e = cc
before_comment-SplitAt c s before (some b) h e =
    let (t, f) = h b refl in
    let g : c ∷ b ≡ before = cc e in (t, subst (λ x. c ∷ s ≡ x ++ b'#' ∷ t) g (ap (λ x. c ∷ x) f))

scan-SplitAt :
    (in_single in_double after_blank : Bool) (s before : Text)
    → scan in_single in_double after_blank s ≡ some before
    → SplitAt s before
unfolding scan
scan-SplitAt in_single in_double after_blank [] before h = cc
scan-SplitAt in_single in_double after_blank (c ∷ s) before h =
    let sq = if c == 39 && not in_double then not in_single else in_single in
    let dq = if c == b'"' && not in_single then not in_double else in_double in
    elim (Bool-cases (c == b'#' && (not in_single && (not in_double && after_blank)))) [
      | inl e ↦
          let g : [] ≡ before = cc (rw e at h) in
          let d : c ≡ b'#' = ground (arith, e) in
          (s, subst (λ x. c ∷ s ≡ x ++ b'#' ∷ s) g (ap (λ x. x ∷ s) d))
      | inr e ↦
          before_comment-SplitAt c s before (scan sq dq (is_blank c) s)
            (λ b f. scan-SplitAt sq dq (is_blank c) s b f) (rw e at h)
    ]

trim_right-tail : (p : ℕ → Bool) (s : Text) → (t : Text) × (s ≡ trim_right p s ++ t)
unfolding trim_right is_empty
trim_right-tail p [] = ([], refl)
trim_right-tail p (c ∷ s) = elim (Bool-cases (p c && is_empty (trim_right p s))) [
  | inl e ↦ rw e (c ∷ s, refl)
  | inr e ↦ rw e (let (t, f) = trim_right-tail p s in (t, ap (λ x. c ∷ x) f))
]

-- What `stripInlineComment` leaves of a line is the whole line, or a front part of it with a number
-- sign somewhere behind it.
strip_inline_comment-front :
    (line : Text)
    → (strip_inline_comment line ≡ line)
      ⊎ ((gap : Text) × (t : Text) × (line ≡ (strip_inline_comment line ++ gap) ++ b'#' ∷ t))
unfolding strip_inline_comment stripped
strip_inline_comment-front line = go (scan false false false line) refl
  where
    go :
        (o : Option Text)
        → scan false false false line ≡ o
        → (stripped line o ≡ line)
          ⊎ ((gap : Text) × (t : Text) × (line ≡ (stripped line o ++ gap) ++ b'#' ∷ t))
    go none e = inl refl
    go (some before) e =
        let (t, f) = scan-SplitAt false false false line before e in
        let (gap, g) = trim_right-tail is_blank before in
        inr (gap, t, f ∙ ap (λ x. x ++ b'#' ∷ t) g)
