-- ===== src/Bot/Bans.antt =====
-- internal/bot/handlers_owner.go: `/ban` and `/unban`, over the banned users and the banned channels
-- of Store.Flags. The flag `primary` says whether the pool has a primary client; what Telegram
-- answers to it is not read.
pub mod Banned
pub mod Unbanned
use thunder_go.Prelude.{
  ℕ, zero, suc, ◌+◌, ◌-◌, ◌*◌, ◌/◌, ◌%◌, ◌^◌, ◌≤◌, ◌<◌, min, max, ◌≡◌, refl, sym, ap, ◌∙◌, subst,
  ◌≢◌, ◌↔◌, ◌⊎◌, inl, inr, Bool, true, false, not, ◌&&◌, ◌||◌, Option, none, some, List, [], ◌∷◌,
  ◌++◌, map, append-nil, append_assoc, arith, length, get_elem?, set, take, drop, length-append,
  length-take, length-drop, All, All-append, All-map, All_at, get_elem?-append,
  get_elem?-append_length, ltb, leb, ◌==◌, if◌then◌else◌, tests, leb→le, le→leb, leb-false→lt,
  ltb→lt, lt→ltb, ltb-false→le, Bool-cases, Option-cases,
}
use thunder_go.Config.{min_channel_id}
use thunder_go.Prelude.Int.{ℤ, pos, ltb_ℤ, leb_ℤ, eqb_ℤ}
use thunder_go.Prelude.Text.{Text}
use thunder_go.Prelude.Text.Decimal.{parse_int}
use thunder_go.Prelude.Text.Words.{fields, join_words}
use thunder_go.Store.Flags.{Collection, Flags, flag, unflag}

-- The last two carry the reason.
pub data BanReply : Type 0 where
  usage_ban invalid_id banned_self invalid_channel db_operation : BanReply
  banned_channel banned_user : ℤ → Text → BanReply

pub data UnbanReply : Type 0 where
  usage_unban invalid_id db_operation : UnbanReply
  unbanned_channel unbanned_user : ℤ → UnbanReply

-- What the primary client is asked to do.
pub data Request : Type 0 where
  leave_channel : ℤ → Request
  ban_notice : ℤ → Text → Request
  unban_notice : ℤ → Request

pub record Bans (U C : Type 0) : Type 0 where
  pub users : Flags U
  pub channels : Flags C

pub record Answer (R U C : Type 0) : Type 0 where
  pub reply : R
  pub requests : List Request
  pub bans : Bans U C

abbrev only : {R U C : Type 0} → R → Bans U C → Answer R U C
only r b = record { reply = r; requests = []; bans = b }

module _ {U C : Type 0} (users : Collection U) (channels : Collection C) where
  after_ban_channel : Bool → ℤ → Text → Flags U → Bool × Flags C → Answer BanReply U C
  after_ban_channel primary id reason u (true, c) = record {
    reply = banned_channel id reason;
    requests = if primary then leave_channel id ∷ [] else [];
    bans = record { users = u; channels = c };
  }
  after_ban_channel primary id reason u (false, c) =
      only db_operation (record { users = u; channels = c })

  after_ban_user : Bool → ℤ → Text → Flags C → Bool × Flags U → Answer BanReply U C
  after_ban_user primary id reason c (true, u) = record {
    reply = banned_user id reason;
    requests = if primary then ban_notice id reason ∷ [] else [];
    bans = record { users = u; channels = c };
  }
  after_ban_user primary id reason c (false, u) =
      only db_operation (record { users = u; channels = c })

  ban_id : Bool → ℤ → Text → Bans U C → Option ℤ → Answer BanReply U C
  unfolding after_ban_channel after_ban_user
  ban_id primary sender reason b none = only BanReply.invalid_id b
  ban_id primary sender reason b (some id) =
      if eqb_ℤ id sender
      then only banned_self b
      else if ltb_ℤ id (pos 0)
      then (if leb_ℤ min_channel_id id
          then only invalid_channel b
          else after_ban_channel primary id reason b.users (flag channels id b.channels))
      else after_ban_user primary id reason b.channels (flag users id b.users)

  ban_fields : Bool → ℤ → Bans U C → List Text → Answer BanReply U C
  unfolding ban_id
  ban_fields primary sender b [] = only usage_ban b
  ban_fields primary sender b (p ∷ ps) = ban_id primary sender (join_words ps) b (parse_int p)

  unfoldable pub handle_ban : Bool → Text → ℤ → Bans U C → Answer BanReply U C
  unfolding ban_fields
  handle_ban primary args sender b = ban_fields primary sender b (fields args)

  after_unban_channel : ℤ → Flags U → Bool × Flags C → Answer UnbanReply U C
  after_unban_channel id u (true, c) =
      only (unbanned_channel id) (record { users = u; channels = c })
  after_unban_channel id u (false, c) =
      only UnbanReply.db_operation (record { users = u; channels = c })

  after_unban_user : Bool → ℤ → Flags C → Bool × Flags U → Answer UnbanReply U C
  after_unban_user primary id c (true, u) = record {
    reply = unbanned_user id;
    requests = if primary then unban_notice id ∷ [] else [];
    bans = record { users = u; channels = c };
  }
  after_unban_user primary id c (false, u) =
      only UnbanReply.db_operation (record { users = u; channels = c })

  unban_id : Bool → Bans U C → Option ℤ → Answer UnbanReply U C
  unfolding after_unban_channel after_unban_user
  unban_id primary b none = only UnbanReply.invalid_id b
  unban_id primary b (some id) =
      if ltb_ℤ id (pos 0)
      then after_unban_channel id b.users (unflag channels id b.channels)
      else after_unban_user primary id b.channels (unflag users id b.users)

  unban_fields : Bool → Bans U C → List Text → Answer UnbanReply U C
  unfolding unban_id
  unban_fields primary b [] = only usage_unban b
  unban_fields primary b (p ∷ ps) = unban_id primary b (parse_int p)

  unfoldable pub handle_unban : Bool → Text → Bans U C → Answer UnbanReply U C
  unfolding unban_fields
  handle_unban primary args b = unban_fields primary b (fields args)
