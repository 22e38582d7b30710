-- ===== src/Bot/Preflight.antt =====
-- internal/bot/bot.go: `preflight` and `promptActivation`. The per-user limiter and the shortener
-- are state; the requests-per-second limiter is a library's, so its answer is a parameter.
pub mod Exact
pub mod Replies
use thunder_go.Prelude.{
  ℕ, zero, suc, ◌+◌, ◌-◌, ◌*◌, ◌/◌, ◌%◌, ◌^◌, ◌≤◌, ◌<◌, min, max, ◌≡◌, refl, sym, ap, ◌∙◌, subst,
  ◌≢◌, ◌↔◌, ◌⊎◌, inl, inr, Bool, true, false, not, ◌&&◌, ◌||◌, Option, none, some, List, [], ◌∷◌,
  ◌++◌, map, append-nil, append_assoc, arith, length, get_elem?, set, take, drop, length-append,
  length-take, length-drop, All, All-append, All-map, All_at, get_elem?-append,
  get_elem?-append_length, ltb, leb, ◌==◌, if◌then◌else◌, tests, leb→le, le→leb, leb-false→lt,
  ltb→lt, lt→ltb, ltb-false→le, Bool-cases, Option-cases,
}
use thunder_go.Config.{Config}
use thunder_go.Prelude.Int.{ℤ, pos, eqb_ℤ}
use thunder_go.Prelude.Text.{Text, codes, text_eq, is_empty}
use thunder_go.RateLimit.{Limiter, Verdict, allow_n}
use thunder_go.Shortener.{Shortener, Web, shorten}
use thunder_go.Tgutil.Base32.{encode_base32}

-- The answers that do not depend on what the bot does with the message. `none` is an error, or for
-- `global` no limiter; otherwise `global` is whether it allows a request, and its wait.
pub record Answers : Type 0 where
  pub is_channel_banned : ℤ → Option Bool
  pub is_user_banned : ℤ → Option Bool
  pub is_authorized : ℤ → Option Bool
  pub is_user_activated : ℤ → Option Bool
  pub has_primary : Bool
  -- `GetChatMember` of a channel and a user: no member, or the status of one
  pub get_chat_member : ℤ → ℤ → Option (Option Text)
  pub global : Option (Bool × ℕ)
  -- the bytes of crypto/rand
  pub random : Option (List ℕ)
  pub save_activation_token : Text → Bool
  pub handler_fails : Text → Bool

pub data Reply : Type 0 where
  temp_db_error banned_notice private_mode internal_error force_sub handler_failed : Reply
  -- with the link
  activation_required : Text → Reply
  -- with the seconds to wait
  rate_limited global_rate_limited : ℕ → Reply

pub data Effect : Type 0 where
  respond : Reply → Effect
  leave_channel : ℤ → Effect
  saves_token : Text → Effect
  -- the name of the command, its arguments, and whether the sender is the owner or authorized
  runs_command : Text → Text → Bool → Bool → Effect
  handles_private_media : Bool → Bool → Effect
  handles_channel_post : Effect

pub record State : Type 0 where
  pub limiter : Option Limiter
  pub shortener : Option Shortener

-- The sender, whether it is authorized, and the name of the command, if the message is one.
pub record Context : Type 0 where
  pub sender : ℤ
  pub is_authorized : Bool
  pub cmd : Option Text

pub data Rejection : Type 0 where
  ban_unknown banned private activation_unknown not_activated no_primary not_subscribed : Rejection
  limited globally_limited : ℕ → Rejection

-- The first of two reasons.
abbrev pub before : Option Rejection → Option Rejection → Option Rejection
before (some r) q = some r
before none q = q

pub ban_check : Option Bool → Option Rejection
ban_check none = some ban_unknown
ban_check (some true) = some banned
ban_check (some false) = none

pub private_check : Config → Context → Option Rejection
private_check cfg c = if cfg.private_mode && not c.is_authorized then some private else none

named : Text → Option Text → Bool
named name none = false
named name (some n) = text_eq n name

pub is_start : Context → Bool
unfolding named
is_start c = named (codes "start") c.cmd

activated_check : Option Bool → Option Rejection
activated_check none = some activation_unknown
activated_check (some true) = none
activated_check (some false) = some not_activated

pub activation_check : Config → Context → Option Bool → Option Rejection
unfolding activated_check is_start
activation_check cfg c activated =
    if cfg.token_enabled && (not c.is_authorized && not (is_start c))
    then activated_check activated
    else none

pub is_member : Option (Option Text) → Bool
is_member none = false
is_member (some none) = false
is_member (some (some status)) =
    text_eq status (codes "member")
    || (text_eq status (codes "admin") || text_eq status (codes "creator"))

pub member_check : Config → Context → Bool → Option (Option Text) → Option Rejection
unfolding is_member is_start
member_check cfg c has_primary member =
    if not (is_start c) && not (eqb_ℤ cfg.force_sub_channel_id (pos 0))
    then if not has_primary
      then some no_primary
      else if is_member member
      then none
      else some not_subscribed
    else none

-- The checks before the limits, in their order.
pub early_check : Answers → Config → Context → Option Rejection
unfolding ban_check private_check activation_check member_check
early_check a cfg c = before (ban_check (a.is_user_banned c.sender)) (
    before (private_check cfg c) (
      before (activation_check cfg c (a.is_user_activated c.sender))
        (member_check cfg c a.has_primary (a.get_chat_member cfg.force_sub_channel_id c.sender))))

pub is_file_request : Context → Bool
unfolding named
is_file_request c = elim c.cmd [ none ↦ true | some name ↦ text_eq name (codes "link") ]

-- int(d.Seconds())
seconds : ℕ → ℕ
seconds d = d / 1000000000

of_verdict : Verdict → Option Rejection
unfolding seconds
of_verdict v = if v.allowed then none else some (limited (max 1 (seconds v.retry_after)))

charge : ℕ → ℤ → Option Limiter → Option Rejection × Option Limiter
unfolding of_verdict
charge now sender none = (none, none)
charge now sender (some l) = let r = allow_n now l sender (pos 1) in (of_verdict r.0, some r.1)

-- The check of the user's own limit, and the limiter after it.
pub user_check : ℕ → Context → Option Limiter → Option Rejection × Option Limiter
unfolding charge is_file_request
user_check now c l =
    if not c.is_authorized && is_file_request c then charge now c.sender l else (none, l)

of_global : Option (Bool × ℕ) → Option Rejection
unfolding seconds
of_global none = none
of_global (some (true, delay)) = none
of_global (some (false, delay)) = some (globally_limited (seconds delay + 1))

pub global_check : Answers → Context → Option Rejection
unfolding of_global
global_check a c = if c.is_authorized then none else of_global a.global

after_early : ℕ → Answers → Context → State → Option Rejection → Option Rejection × State
unfolding user_check global_check
after_early now a c s (some r) = (some r, s)
after_early now a c s none =
    let u = user_check now c s.limiter in
    (before u.0 (global_check a c), record s { limiter = u.1 })

-- Why the message is rejected, if it is, and the state with the limiter charged.
unfoldable pub preflight : ℕ → Answers → Config → Context → State → Option Rejection × State
unfolding after_early early_check
preflight now a cfg c s = after_early now a c s (early_check a cfg c)

module _ (w : Web) where
  shortened : Text → Option Shortener → Text × Option Shortener
  unfolding is_empty
  shortened url none = (url, none)
  shortened url (some sh) =
      let r = shorten w sh url in (if is_empty r.0 then url else r.0, some r.1)

  with_token : Answers → Config → State → Option (List ℕ) → List Effect × State
  unfolding shortened
  with_token a cfg s none = (respond internal_error ∷ [], s)
  with_token a cfg s (some bytes) =
      let token = encode_base32 bytes in
      let u = shortened (cfg.base_url ++ (codes "/activate/" ++ token)) s.shortener in
      if a.save_activation_token token
      then (
        saves_token token ∷ respond (activation_required u.0) ∷ [],
        record s { shortener = u.1 },
      )
      else (respond internal_error ∷ [], s)

  unfoldable pub prompt_activation : Answers → Config → State → List Effect × State
  unfolding with_token
  prompt_activation a cfg s = with_token a cfg s a.random

  -- What the bot does about a message that is rejected.
  pub reject : Answers → Config → State → Rejection → List Effect × State
  unfolding prompt_activation
  reject a cfg s ban_unknown = (respond temp_db_error ∷ [], s)
  reject a cfg s banned = (respond banned_notice ∷ [], s)
  reject a cfg s private = (respond private_mode ∷ [], s)
  reject a cfg s activation_unknown = (respond temp_db_error ∷ [], s)
  reject a cfg s not_activated = prompt_activation a cfg s
  reject a cfg s no_primary = (respond temp_db_error ∷ [], s)
  reject a cfg s not_subscribed = (respond force_sub ∷ [], s)
  reject a cfg s (limited seconds) = (respond (rate_limited seconds) ∷ [], s)
  reject a cfg s (globally_limited seconds) = (respond (global_rate_limited seconds) ∷ [], s)
