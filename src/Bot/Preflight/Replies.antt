-- ===== src/Bot/Preflight/Replies.antt =====
-- internal/bot/bot.go: the replies of `preflight` and `promptActivation`.
use thunder_go.Prelude.{ℕ, inl, inr, Option, none, some, List, All, Bool-cases}
use thunder_go.Bot.Preflight.{
  Answers, Reply, Effect, respond, saves_token, State, Rejection, ban_unknown, banned, private,
  activation_unknown, not_activated, no_primary, not_subscribed, limited, globally_limited,
  internal_error, with_token, prompt_activation, reject,
}
use thunder_go.Config.{Config}
use thunder_go.Prelude.Text.{Text}
use thunder_go.Shortener.{Web}
use thunder_go.Tgutil.Base32.{encode_base32}

module _ (w : Web) (a : Answers) (cfg : Config) (P : Effect → Type 0) (s : State) where
  with_token-All :
      (r : Option (List ℕ))
      → ((x : Reply) → P (respond x))
      → ((t : Text) → P (saves_token t))
      → All P (with_token w a cfg s r).0
  unfolding with_token
  with_token-All none h k = (h internal_error, tt)
  with_token-All (some bytes) h k =
      elim (Bool-cases (a.save_activation_token (encode_base32 bytes))) [
        | inl e ↦ rw e (k _, (h _, tt))
        | inr e ↦ rw e (h _, tt)
      ]

  -- A rejected message has no effect but replies and a saved token.
  pub reject-All :
      (r : Rejection)
      → ((x : Reply) → P (respond x))
      → ((t : Text) → P (saves_token t))
      → All P (reject w a cfg s r).0
  unfolding reject prompt_activation
  reject-All ban_unknown h k = (h _, tt)
  reject-All banned h k = (h _, tt)
  reject-All private h k = (h _, tt)
  reject-All activation_unknown h k = (h _, tt)
  reject-All not_activated h k = with_token-All a.random h k
  reject-All no_primary h k = (h _, tt)
  reject-All not_subscribed h k = (h _, tt)
  reject-All (limited n) h k = (h _, tt)
  reject-All (globally_limited n) h k = (h _, tt)
