-- ===== src/Bot/Start.antt =====
-- internal/bot/handlers_basic.go: `/start` and the activation by a token.
pub mod Activated
use thunder_go.Prelude.{
  ℕ, zero, suc, ◌+◌, ◌-◌, ◌*◌, ◌/◌, ◌%◌, ◌^◌, ◌≤◌, ◌<◌, min, max, ◌≡◌, refl, sym, ap, ◌∙◌, subst,
  ◌≢◌, ◌↔◌, ◌⊎◌, inl, inr, Bool, true, false, not, ◌&&◌, ◌||◌, Option, none, some, List, [], ◌∷◌,
  ◌++◌, map, append-nil, append_assoc, arith, length, get_elem?, set, take, drop, length-append,
  length-take, length-drop, All, All-append, All-map, All_at, get_elem?-append,
  get_elem?-append_length, ltb, leb, ◌==◌, if◌then◌else◌, tests, leb→le, le→leb, leb-false→lt,
  ltb→lt, lt→ltb, ltb-false→le, Bool-cases, Option-cases,
}
use thunder_go.Config.{Config}
use thunder_go.Prelude.Int.{ℤ, pos, eqb_ℤ}
use thunder_go.Prelude.Text.{Text, codes, is_empty}
use thunder_go.Prelude.Text.Decimal.{print_nat}
use thunder_go.Store.Activations.{ActivatedUsers, activate_user}
use thunder_go.Store.Flags.{Flags}
use thunder_go.Store.Tokens.{
  Tokens, Consumed, consumed, not_found, failed, consume_activation_token,
}

-- The last says whether the owner is told of a new user.
pub data StartReply : Type 0 where
  activation_invalid internal : StartReply
  activated : Text → StartReply
  welcome : Bool → StartReply

pub record Gate (T A : Type 0) : Type 0 where
  pub tokens : T
  pub activations : Flags A

-- The hours of a duration that is not negative, in words.
unfoldable pub format_duration : ℕ → Text
format_duration h =
    if leb 48 h
    then print_nat (h / 24) ++ codes " days"
    else if leb 24 h
    then codes "1 day"
    else if h == 1
    then codes "1 hour"
    else print_nat h ++ codes " hours"

-- Nanoseconds.
abbrev pub hour : ℕ
hour = 3600000000000

module _ {T A : Type 0} (tokens : Tokens T) (users : ActivatedUsers A) where
  after_activate : ℕ → T → Bool × Flags A → StartReply × Gate T A
  unfolding format_duration
  after_activate hours t (true, f) =
      (activated (format_duration hours), record { tokens = t; activations = f })
  after_activate hours t (false, f) = (internal, record { tokens = t; activations = f })

  -- With the time at which `ActivateUser` is called.
  after_consume : ℕ → ℕ → ℤ → Flags A → Consumed × T → StartReply × Gate T A
  unfolding after_activate
  after_consume at hours sender f (consumed, t) =
      after_activate hours t (activate_user users at (hours * hour) sender f)
  after_consume at hours sender f (not_found, t) =
      (activation_invalid, record { tokens = t; activations = f })
  after_consume at hours sender f (failed, t) =
      (activation_invalid, record { tokens = t; activations = f })

  unfoldable pub consume_activation : ℕ → ℕ → ℕ → Text → ℤ → Gate T A → StartReply × Gate T A
  unfolding after_consume
  consume_activation now at hours payload sender g =
      after_consume at hours sender g.activations
        (consume_activation_token tokens payload now g.tokens)

  -- The flag is `UpsertUser`, whether it has inserted the user.
  unfoldable pub handle_start :
      Config → ℕ → ℕ → ℕ → Bool → Text → ℤ → Gate T A → StartReply × Gate T A
  unfolding consume_activation is_empty
  handle_start cfg now at hours inserted args sender g =
      if cfg.token_enabled && not (is_empty args)
      then consume_activation now at hours args sender g
      else (welcome (inserted && not (eqb_ℤ cfg.owner_user_id (pos 0))), g)
