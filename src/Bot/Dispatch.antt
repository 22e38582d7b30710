-- ===== src/Bot/Dispatch.antt =====
-- internal/bot/bot.go: `dispatchAsync`, from a message to what is done about it.
pub mod Allowed
pub mod Admission
use thunder_go.Prelude.{
  ℕ, zero, suc, ◌+◌, ◌-◌, ◌*◌, ◌/◌, ◌%◌, ◌^◌, ◌≤◌, ◌<◌, min, max, ◌≡◌, refl, sym, ap, ◌∙◌, subst,
  ◌≢◌, ◌↔◌, ◌⊎◌, inl, inr, Bool, true, false, not, ◌&&◌, ◌||◌, Option, none, some, List, [], ◌∷◌,
  ◌++◌, map, append-nil, append_assoc, arith, length, get_elem?, set, take, drop, length-append,
  length-take, length-drop, All, All-append, All-map, All_at, get_elem?-append,
  get_elem?-append_length, ltb, leb, ◌==◌, if◌then◌else◌, tests, leb→le, le→leb, leb-false→lt,
  ltb→lt, lt→ltb, ltb-false→le, Bool-cases, Option-cases,
}
use thunder_go.Bot.Commands.{Command}
use thunder_go.Bot.Preflight.{
  Answers, Effect, respond, leave_channel, runs_command, handles_private_media,
  handles_channel_post, handler_failed, State, Context, Rejection, preflight, reject,
}
use thunder_go.Config.{Config, is_owner}
use thunder_go.Prelude.Dict.{lookup}
use thunder_go.Prelude.Int.{ℤ, pos, eqb_ℤ}
use thunder_go.Prelude.Text.{Text, codes, is_empty, strip_prefix, cut, trim_space}
use thunder_go.Shortener.{Web}

-- What the library's accessors return for a message.
pub record Incoming : Type 0 where
  pub is_channel : Bool
  pub is_group : Bool
  pub is_private : Bool
  pub is_media : Bool
  pub is_command : Bool
  pub channel_id : ℤ
  pub chat_id : ℤ
  pub sender_id : ℤ
  pub get_command : Text
  pub args : Text

unfoldable pub chat_of : Incoming → ℤ
chat_of m = if eqb_ℤ m.channel_id (pos 0) then m.chat_id else m.channel_id

pub among : ℤ → List ℤ → Bool
among id [] = false
among id (j ∷ js) = eqb_ℤ j id || among id js

leave_if : Bool → ℤ → Option (List Effect)
leave_if true id = some (leave_channel id ∷ [])
leave_if false id = none

after_ban_check : Config → ℤ → Option Bool → Option (List Effect)
unfolding among leave_if
after_ban_check cfg id none = some []
after_ban_check cfg id (some true) = some (leave_channel id ∷ [])
after_ban_check cfg id (some false) = leave_if (among id cfg.banned_channel_ids) id

gate_of : Answers → Config → ℤ → Option (List Effect)
unfolding after_ban_check leave_if among
gate_of a cfg id =
    if eqb_ℤ id (pos 0)
    then leave_if (among id cfg.banned_channel_ids) id
    else after_ban_check cfg id (a.is_channel_banned id)

-- What ends the handling of a message for the chat that it comes from, if anything.
pub chat_gate : Answers → Config → Incoming → Option (List Effect)
unfolding gate_of chat_of
chat_gate a cfg m = if not (m.is_channel || m.is_group) then none else gate_of a cfg (chat_of m)

without_slash : Text → Option Text → Text
without_slash t none = t
without_slash t (some rest) = rest

-- The text before an at sign that does not come first.
without_bot : Text → Option (Text × Text) → Text
without_bot t none = t
without_bot t (some ([], rest)) = t
without_bot t (some (c ∷ name, rest)) = c ∷ name

unfoldable pub command_name : Text → Text
unfolding without_slash without_bot
command_name t = let u = without_slash t (strip_prefix (codes "/") t) in without_bot u (cut b'@' u)

known : Option Bool → Bool
known none = false
known (some b) = b

module _ (w : Web) (a : Answers) (cfg : Config) where
  run_command : Text → Text → Bool → Bool → List Effect
  run_command name args owner authorized =
      runs_command name args owner authorized
      ∷ (if a.handler_fails name then respond handler_failed ∷ [] else [])

  -- What follows `preflight`: the message is rejected, or it is handled.
  pub guarded : List Effect → Option Rejection × State → List Effect × State
  guarded work (none, s) = (work, s)
  guarded work (some r, s) = reject w a cfg s r

  -- The owner passes without `preflight`.
  pub admitted : ℕ → Bool → Context → List Effect → State → List Effect × State
  unfolding guarded
  admitted now owner c work s = if owner then (work, s) else guarded work (preflight now a cfg c s)

  found_command : ℕ → Text → Text → ℤ → Bool → Bool → State → Option Bool → List Effect × State
  unfolding admitted run_command
  found_command now name args sender owner authorized s none = ([], s)
  found_command now name args sender owner authorized s (some owner_only) =
      if owner_only && not owner
      then ([], s)
      else admitted now owner
          (record { sender = sender; is_authorized = authorized; cmd = some name })
          (run_command name args owner authorized) s

  pub after_gate : List Command → ℕ → Incoming → Bool → Bool → State → List Effect × State
  unfolding found_command command_name admitted
  after_gate commands now m owner authorized s =
      let name = command_name m.get_command in
      if m.is_command
      then found_command now name (trim_space m.args) m.sender_id owner authorized s
          (lookup name commands)
      else if m.is_private && m.is_media
      then admitted now owner
          (record { sender = m.sender_id; is_authorized = authorized; cmd = none })
          (handles_private_media owner authorized ∷ []) s
      else if m.is_channel && (cfg.channel_auto_process && m.is_media)
      then (handles_channel_post ∷ [], s)
      else ([], s)

  after_chat : List Command → ℕ → Incoming → State → Option (List Effect) → List Effect × State
  unfolding after_gate known
  after_chat commands now m s (some effects) = (effects, s)
  after_chat commands now m s none =
      after_gate commands now m (is_owner cfg m.sender_id) (known (a.is_authorized m.sender_id)) s

  unfoldable pub dispatch_async : List Command → ℕ → Incoming → State → List Effect × State
  unfolding after_chat chat_gate
  dispatch_async commands now m s = after_chat commands now m s (chat_gate a cfg m)
