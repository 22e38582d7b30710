-- ===== src/Bot/Dispatch/Allowed.antt =====
-- internal/bot/bot.go: when an effect of `dispatchAsync` is allowed, and the check of the chat.
use thunder_go.Prelude.{
  ℕ, ◌≡◌, refl, subst, ◌⊎◌, inl, inr, Bool, true, false, Option, none, some, List, [], ◌∷◌, arith,
  All, if◌then◌else◌, Bool-cases,
}
use thunder_go.Bot.Commands.{Command}
use thunder_go.Bot.Dispatch.{
  gate_of, Incoming, chat_of, among, leave_if, after_ban_check, chat_gate, command_name,
}
use thunder_go.Bot.Preflight.{
  Answers, Effect, respond, leave_channel, saves_token, runs_command, handles_private_media,
  handles_channel_post, State,
}
use thunder_go.Bot.Preflight.Exact.{Admitted}
use thunder_go.Config.{Config, is_owner}
use thunder_go.Prelude.Dict.{lookup}
use thunder_go.Prelude.Int.{eqb_ℤ_iff, ℤ, pos, eqb_ℤ}
use thunder_go.Prelude.Text.{Text}

-- The chat of a message that is banned, by the settings or in the database.
abbrev pub IsBannedChat : Answers → Config → Incoming → Type 0
IsBannedChat a cfg m =
    (among (chat_of m) cfg.banned_channel_ids ≡ true)
    ⊎ (a.is_channel_banned (chat_of m) ≡ some true)

-- A message of a chat between two, or of a channel or group that is known not to be banned.
abbrev pub IsWelcome : Answers → Config → Incoming → Type 0
IsWelcome a cfg m =
    ((m.is_channel ≡ false) × (m.is_group ≡ false))
    ⊎ ((among (chat_of m) cfg.banned_channel_ids ≡ false)
        × ((chat_of m ≡ pos 0) ⊎ (a.is_channel_banned (chat_of m) ≡ some false)))

-- Whether the sender, with the command or without, may have the bot work.
abbrev pub MayAsk : ℕ → Answers → Config → Incoming → State → Bool → Option Text → Type 0
MayAsk now a cfg m s authorized cmd =
    (is_owner cfg m.sender_id ≡ true)
    ⊎ Admitted now a cfg (record { sender = m.sender_id; is_authorized = authorized; cmd = cmd }) s

-- What a handler is told of the sender is so.
abbrev pub IsTold : Answers → Config → Incoming → Bool → Bool → Type 0
IsTold a cfg m owner authorized =
    (owner ≡ is_owner cfg m.sender_id)
    × (authorized ≡ true → a.is_authorized m.sender_id ≡ some true)

-- The condition on a message and the state for each effect.
abbrev pub IsAllowed : ℕ → Answers → Config → List Command → Incoming → State → Effect → Type 0
IsAllowed now a cfg commands m s (respond r) = Unit
IsAllowed now a cfg commands m s (saves_token t) = Unit
IsAllowed now a cfg commands m s (leave_channel id) = (id ≡ chat_of m) × IsBannedChat a cfg m
IsAllowed now a cfg commands m s (runs_command name args owner authorized) =
    (m.is_command ≡ true)
    × ((name ≡ command_name m.get_command)
        × (((lookup name commands ≡ some false)
              ⊎ ((lookup name commands ≡ some true) × (is_owner cfg m.sender_id ≡ true)))
            × (IsWelcome a cfg m
                × (IsTold a cfg m owner authorized × MayAsk now a cfg m s authorized (some name)))))
IsAllowed now a cfg commands m s (handles_private_media owner authorized) =
    (m.is_private ≡ true)
    × ((m.is_media ≡ true)
        × (IsWelcome a cfg m
            × (IsTold a cfg m owner authorized × MayAsk now a cfg m s authorized none)))
IsAllowed now a cfg commands m s handles_channel_post =
    (m.is_channel ≡ true)
    × ((cfg.channel_auto_process ≡ true) × ((m.is_media ≡ true) × IsWelcome a cfg m))

after_ban_check-none :
    (cfg : Config) (id : ℤ) (o : Option Bool)
    → after_ban_check cfg id o ≡ none
    → (among id cfg.banned_channel_ids ≡ false) × (o ≡ some false)
unfolding after_ban_check leave_if
after_ban_check-none cfg id none h = cc
after_ban_check-none cfg id (some true) h = cc
after_ban_check-none cfg id (some false) h = elim (Bool-cases (among id cfg.banned_channel_ids)) [
  | inl e ↦ let k : leave_if true id ≡ none = subst (λ b. leave_if b id ≡ none) e h in cc
  | inr e ↦ (e, refl)
]

-- A chat that ends nothing has no id, or is known not to be banned.
gate_of-none :
    (a : Answers) (cfg : Config) (id : ℤ)
    → gate_of a cfg id ≡ none
    → (among id cfg.banned_channel_ids ≡ false)
      × ((id ≡ pos 0) ⊎ (a.is_channel_banned id ≡ some false))
unfolding gate_of leave_if
gate_of-none a cfg id h =
    ground (arith, eqb_ℤ_iff id (pos 0), after_ban_check-none cfg id (a.is_channel_banned id))

pub chat_gate-none :
    (a : Answers) (cfg : Config) (m : Incoming) → chat_gate a cfg m ≡ none → IsWelcome a cfg m
unfolding chat_gate
chat_gate-none a cfg m h = ground (arith, gate_of-none a cfg (chat_of m))

leave_if-some :
    (a : Answers) (cfg : Config) (id : ℤ) (b : Bool) (es : List Effect)
    → leave_if b id ≡ some es
    → (es ≡ leave_channel id ∷ []) × (b ≡ true)
unfolding leave_if
leave_if-some a cfg id true es h = (cc, refl)
leave_if-some a cfg id false es h = cc

after_ban_check-some :
    (a : Answers) (cfg : Config) (id : ℤ) (o : Option Bool) (es : List Effect)
    → after_ban_check cfg id o ≡ some es
    → (es ≡ [])
      ⊎ ((es ≡ leave_channel id ∷ [])
          × ((among id cfg.banned_channel_ids ≡ true) ⊎ (o ≡ some true)))
unfolding after_ban_check
after_ban_check-some a cfg id none es h = inl (cc)
after_ban_check-some a cfg id (some true) es h = inr (cc, inr refl)
after_ban_check-some a cfg id (some false) es h =
    let k = leave_if-some a cfg id (among id cfg.banned_channel_ids) es h in inr (k.0, inl k.1)

-- A chat that ends the handling is left if it is banned.
gate_of-some :
    (a : Answers) (cfg : Config) (id : ℤ) (es : List Effect)
    → gate_of a cfg id ≡ some es
    → (es ≡ [])
      ⊎ ((es ≡ leave_channel id ∷ [])
          × ((among id cfg.banned_channel_ids ≡ true) ⊎ (a.is_channel_banned id ≡ some true)))
unfolding gate_of
gate_of-some a cfg id es h = go (eqb_ℤ id (pos 0)) h
  where
    go :
        (b : Bool)
        → (if b
            then leave_if (among id cfg.banned_channel_ids) id
            else after_ban_check cfg id (a.is_channel_banned id))
          ≡ some es
        → (es ≡ [])
          ⊎ ((es ≡ leave_channel id ∷ [])
              × ((among id cfg.banned_channel_ids ≡ true) ⊎ (a.is_channel_banned id ≡ some true)))
    go true k = let l = leave_if-some a cfg id _ es k in inr (l.0, inl l.1)
    go false k = after_ban_check-some a cfg id (a.is_channel_banned id) es k

pub chat_gate-some :
    (a : Answers) (cfg : Config) (commands : List Command) (now : ℕ) (m : Incoming) (s : State)
    (es : List Effect)
    → chat_gate a cfg m ≡ some es
    → All (IsAllowed now a cfg commands m s) es
unfolding chat_gate
chat_gate-some a cfg commands now m s es h = go (gate_of-some a cfg (chat_of m) es (ground arith))
  where
    go :
        (es ≡ []) ⊎ ((es ≡ leave_channel (chat_of m) ∷ []) × IsBannedChat a cfg m)
        → All (IsAllowed now a cfg commands m s) es
    go (inl e) = rw e tt
    go (inr (e, b)) = rw e ((refl, b), tt)
