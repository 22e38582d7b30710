-- ===== src/Bot/Preflight/Exact.antt =====
-- internal/bot/bot.go: the messages that `preflight` lets pass.
use thunder_go.Prelude.{ℕ, ◌≡◌, ◌⊎◌, Bool, true, false, Option, none, some}
use thunder_go.Bot.Preflight.{Answers, State, Context, is_start, is_member, is_file_request}
use thunder_go.Config.{Config}
use thunder_go.Prelude.Int.{ℤ, pos, eqb_ℤ}
use thunder_go.RateLimit.{Limiter, allow_n}

-- What the five gates ask for, each in its own words.
abbrev pub MayUse : Config → Context → Type 0
MayUse cfg c = (cfg.private_mode ≡ false) ⊎ (c.is_authorized ≡ true)

abbrev pub IsActivated : Answers → Config → Context → Type 0
IsActivated a cfg c =
    (cfg.token_enabled ≡ false)
    ⊎ ((c.is_authorized ≡ true)
        ⊎ ((is_start c ≡ true) ⊎ (a.is_user_activated c.sender ≡ some true)))

abbrev pub IsSubscribed : Answers → Config → Context → Type 0
IsSubscribed a cfg c =
    (is_start c ≡ true)
    ⊎ ((eqb_ℤ cfg.force_sub_channel_id (pos 0) ≡ true)
        ⊎ ((a.has_primary ≡ true)
            × (is_member (a.get_chat_member cfg.force_sub_channel_id c.sender) ≡ true)))

-- There is room in the limiter for one more request of the sender.
abbrev HasSlot : ℕ → ℤ → Option Limiter → Type 0
HasSlot now sender none = Unit
HasSlot now sender (some l) = (allow_n now l sender (pos 1)).0.allowed ≡ true

abbrev pub IsWithinLimit : ℕ → Context → State → Type 0
IsWithinLimit now c s =
    (c.is_authorized ≡ true) ⊎ ((is_file_request c ≡ false) ⊎ HasSlot now c.sender s.limiter)

abbrev HasRoom : Option (Bool × ℕ) → Type 0
HasRoom none = Unit
HasRoom (some (allows, delay)) = allows ≡ true

abbrev pub IsWithinGlobal : Answers → Context → Type 0
IsWithinGlobal a c = (c.is_authorized ≡ true) ⊎ HasRoom a.global

pub record Admitted (now : ℕ) (a : Answers) (cfg : Config) (c : Context) (s : State) : Type 0 where
  pub not_banned : a.is_user_banned c.sender ≡ some false
  pub may_use : MayUse cfg c
  pub activated : IsActivated a cfg c
  pub subscribed : IsSubscribed a cfg c
  pub within_limit : IsWithinLimit now c s
  pub within_global : IsWithinGlobal a c
