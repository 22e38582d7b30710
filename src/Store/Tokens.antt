-- ===== src/Store/Tokens.antt =====
-- internal/store/store.go: the one-time activation tokens. The MongoDB collection is a parameter.
pub mod Once
use thunder_go.Prelude.{
  ℕ, zero, suc, ◌+◌, ◌-◌, ◌*◌, ◌/◌, ◌%◌, ◌^◌, ◌≤◌, ◌<◌, min, max, ◌≡◌, refl, sym, ap, ◌∙◌, subst,
  ◌≢◌, ◌↔◌, ◌⊎◌, inl, inr, Bool, true, false, not, ◌&&◌, ◌||◌, Option, none, some, List, [], ◌∷◌,
  ◌++◌, map, append-nil, append_assoc, arith, length, get_elem?, set, take, drop, length-append,
  length-take, length-drop, All, All-append, All-map, All_at, get_elem?-append,
  get_elem?-append_length, ltb, leb, ◌==◌, if◌then◌else◌, tests, leb→le, le→leb, leb-false→lt,
  ltb→lt, lt→ltb, ltb-false→le, Bool-cases, Option-cases,
}
use thunder_go.Prelude.Text.{Text}

pub record ActivationToken : Type 0 where
  pub token : Text
  pub created_at : ℕ
  pub expires_at : ℕ

pub record Tokens (S : Type 0) : Type 0 where
  -- `InsertOne`: whether there was no error
  pub insert_one : ActivationToken → S → Bool × S
  -- `FindOneAndDelete` of a token that expires after a time: an error, or whether there was one
  pub find_one_and_delete : Text → ℕ → S → Option Bool × S

-- nil, "not found or expired", and another error.
pub data Consumed : Type 0 where
  consumed not_found failed : Consumed

unfoldable pub consumed_of : Option Bool → Consumed
consumed_of none = failed
consumed_of (some true) = consumed
consumed_of (some false) = not_found

module _ {S : Type 0} (db : Tokens S) where
  unfoldable pub save_activation_token : Text → ℕ → ℕ → S → Bool × S
  save_activation_token token now ttl =
      db.insert_one (record { token = token; created_at = now; expires_at = now + ttl })

  unfoldable pub consume_activation_token : Text → ℕ → S → Consumed × S
  unfolding consumed_of
  consume_activation_token token now s =
      let (o, s') = db.find_one_and_delete token now s in (consumed_of o, s')
