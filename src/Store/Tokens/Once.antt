-- ===== src/Store/Tokens/Once.antt =====
-- internal/store/store.go: a token that several calls consume.
use thunder_go.Prelude.{
  ℕ, ◌+◌, ◌≤◌, ◌≡◌, refl, subst, ◌⊎◌, inl, inr, Bool, true, false, Option, none, some, List, [],
  ◌∷◌, arith, if◌then◌else◌, Bool-cases,
}
use thunder_go.Prelude.Text.{Text, text_eq}
use thunder_go.Prelude.Text.Laws.{text_eq_iff}
use thunder_go.Store.Tokens.{
  Tokens, Consumed, consumed, not_found, failed, consumed_of, consume_activation_token,
}

module _ {S : Type 0} (db : Tokens S) where
  -- FindOneAndDelete, for a view of the tokens that the collection has: what it finds was there and
  -- is there no more, and it puts no token in.
  pub record Deletes (has : Text → S → Bool) : Type 0 where
    pub found_had :
        (token : Text) (now : ℕ) (s : S)
        → (db.find_one_and_delete token now s).0 ≡ some true
        → has token s ≡ true
    pub found_gone :
        (token : Text) (now : ℕ) (s : S)
        → (db.find_one_and_delete token now s).0 ≡ some true
        → has token (db.find_one_and_delete token now s).1 ≡ false
    pub none_new :
        (other token : Text) (now : ℕ) (s : S)
        → has other s ≡ false
        → has other (db.find_one_and_delete token now s).1 ≡ false

  one_if : Text → Text → Consumed → ℕ
  one_if token t consumed = if text_eq t token then 1 else 0
  one_if token t not_found = 0
  one_if token t failed = 0

  -- How often a token is consumed in a sequence of calls, each of a token at a time.
  pub times_consumed : Text → List (Text × ℕ) → S → ℕ
  unfolding one_if
  times_consumed token [] s = 0
  times_consumed token ((t, now) ∷ calls) s =
      let r = consume_activation_token db t now s in
      one_if token t r.0 + times_consumed token calls r.1

  -- A call counts only if it finds the token.
  one_if-found :
      (token t : Text) (o : Option Bool)
      → (one_if token t (consumed_of o) ≡ 0)
        ⊎ ((one_if token t (consumed_of o) ≡ 1) × ((t ≡ token) × (o ≡ some true)))
  unfolding one_if consumed_of
  one_if-found token t none = inl refl
  one_if-found token t (some false) = inl refl
  one_if-found token t (some true) = elim (Bool-cases (text_eq t token)) [
    | inl e ↦ inr (rw e refl, ((text_eq_iff t token).0 e, refl))
    | inr e ↦ inl (rw e refl)
  ]

  module _ (has : Text → S → Bool) (d : Deletes has) where
    gone-times_consumed :
        (token : Text) (calls : List (Text × ℕ)) (s : S)
        → has token s ≡ false
        → times_consumed token calls s ≡ 0
    unfolding times_consumed consume_activation_token
    gone-times_consumed token [] s h = refl
    gone-times_consumed token ((t, now) ∷ calls) s h =
        let rest = gone-times_consumed token calls _ (d.none_new token t now s h) in
        elim (one_if-found token t (db.find_one_and_delete t now s).0) [
          | inl e ↦ omega (arith, rest, e)
          | inr (e, (same, found)) ↦
              let there : has token s ≡ true =
                subst (λ u. has u s ≡ true) same (d.found_had t now s found) in
              cc
        ]

    -- With a collection whose FindOneAndDelete deletes the token that it finds and puts none in: any
    -- sequence of calls, of this token and others and at any times, consumes a token at most once.
    pub times_consumed_once :
        (token : Text) (calls : List (Text × ℕ)) (s : S) → times_consumed token calls s ≤ 1
    unfolding times_consumed consume_activation_token
    times_consumed_once token [] s = omega arith
    times_consumed_once token ((t, now) ∷ calls) s =
        let rest = times_consumed_once token calls (db.find_one_and_delete t now s).1 in
        elim (one_if-found token t (db.find_one_and_delete t now s).0) [
          | inl e ↦ omega (arith, rest, e)
          | inr (e, (same, found)) ↦
              let gone = gone-times_consumed token calls _ (
                subst (λ u. has u (db.find_one_and_delete t now s).1 ≡ false) same
                  (d.found_gone t now s found)) in
              omega (arith, e, gone)
        ]
