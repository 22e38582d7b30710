-- ===== src/Bot/Bans/Unbanned.antt =====
-- internal/bot/handlers_owner.go: what the replies to `/unban` say.
use thunder_go.Prelude.{
  ◌≡◌, refl, ap, ◌∙◌, subst, ◌⊎◌, inl, inr, Bool, true, false, Option, none, some, List, [], ◌∷◌,
  if◌then◌else◌, Bool-cases,
}
use thunder_go.Bot.Bans.{
  UnbanReply, usage_unban, unbanned_channel, unbanned_user, Request, unban_notice, Bans, Answer,
  after_unban_channel, after_unban_user, unban_id, unban_fields, handle_unban,
}
use thunder_go.Bot.Bans.Banned.{first_id, Says, AllFresh}
use thunder_go.Prelude.Int.{ℤ, pos, ltb_ℤ}
use thunder_go.Prelude.Text.{Text}
use thunder_go.Prelude.Text.Decimal.{parse_int}
use thunder_go.Prelude.Text.Words.{fields}
use thunder_go.Store.Flags.{Collection, Flags, unflag}
use thunder_go.Store.Flags.Fresh.{IsCollection, IsFresh, is_flagged-Answers, unflag-IsFresh}

unflag-Says :
    {S : Type 0} (db : Collection S) (has : S → ℤ → Bool) (laws : IsCollection db has) (id : ℤ)
    (f : Flags S) (r : Bool × Flags S)
    → IsFresh db has laws f
    → unflag db id f ≡ r
    → r.0 ≡ true
    → IsFresh db has laws r.1 × Says db false id r.1
unflag-Says db has laws id f r fresh e ok =
    let k = unflag-IsFresh db has laws id f fresh (ap (λ x. x.0) e ∙ ok) in
    let r_fresh : IsFresh db has laws r.1 = subst (λ x. IsFresh db has laws x.1) e k.0 in
    let gone : has r.1.documents id ≡ false = subst (λ x. has x.1.documents id ≡ false) e k.1 in
    (r_fresh, λ n l v q. (is_flagged-Answers db has laws n l id r.1 r_fresh).0 v q ∙ gone)

module _ {U C : Type 0} (users : Collection U) (channels : Collection C) (has_user : U → ℤ → Bool)
    (has_channel : C → ℤ → Bool) (user_laws : IsCollection users has_user)
    (channel_laws : IsCollection channels has_channel) where
  abbrev Fresh : Bans U C → Type 0
  Fresh b = AllFresh users channels has_user has_channel user_laws channel_laws b

  -- The reply, with what it says.
  abbrev IsUnbanOf : UnbanReply → Bool → List Text → Bans U C → List Request → Bans U C → Type 0
  IsUnbanOf (unbanned_user id) primary args b rs b' =
      ((first_id args ≡ some id) × (ltb_ℤ id (pos 0) ≡ false))
      × ((rs ≡ (if primary then unban_notice id ∷ [] else []))
          × (Fresh b' × (Says users false id b'.users × (b'.channels ≡ b.channels))))
  IsUnbanOf (unbanned_channel id) primary args b rs b' =
      ((first_id args ≡ some id) × (ltb_ℤ id (pos 0) ≡ true))
      × ((rs ≡ []) × (Fresh b' × (Says channels false id b'.channels × (b'.users ≡ b.users))))
  IsUnbanOf UnbanReply.db_operation primary args b rs b' =
      (rs ≡ [])
      × ((id : ℤ) × ((first_id args ≡ some id)
            × (((unflag users id b.users).0 ≡ false)
                ⊎ ((unflag channels id b.channels).0 ≡ false))))
  IsUnbanOf usage_unban primary args b rs b' = (args ≡ []) × ((rs ≡ []) × (b' ≡ b))
  IsUnbanOf UnbanReply.invalid_id primary args b rs b' =
      (first_id args ≡ none) × ((rs ≡ []) × (b' ≡ b))

  abbrev IsUnban : Bool → List Text → Bans U C → Answer UnbanReply U C → Type 0
  IsUnban primary args b a = IsUnbanOf a.reply primary args b a.requests a.bans

  after_unban_user-IsUnban :
      (primary : Bool) (args : List Text) (id : ℤ) (b : Bans U C) (r : Bool × Flags U)
      → Fresh b
      → first_id args ≡ some id
      → ltb_ℤ id (pos 0) ≡ false
      → unflag users id b.users ≡ r
      → IsUnban primary args b (after_unban_user users channels primary id b.channels r)
  unfolding after_unban_user
  after_unban_user-IsUnban primary args id b (true, u) fresh named sign e =
      let k = unflag-Says users has_user user_laws id b.users (true, u) fresh.0 e refl in
      ((named, sign), (refl, ((k.0, fresh.1), (k.1, refl))))
  after_unban_user-IsUnban primary args id b (false, u) fresh named sign e =
      (refl, (id, (named, inl (ap (λ x. x.0) e))))

  after_unban_channel-IsUnban :
      (primary : Bool) (args : List Text) (id : ℤ) (b : Bans U C) (r : Bool × Flags C)
      → Fresh b
      → first_id args ≡ some id
      → ltb_ℤ id (pos 0) ≡ true
      → unflag channels id b.channels ≡ r
      → IsUnban primary args b (after_unban_channel users channels id b.users r)
  unfolding after_unban_channel
  after_unban_channel-IsUnban primary args id b (true, c) fresh named sign e =
      let k =
        unflag-Says channels has_channel channel_laws id b.channels (true, c) fresh.1 e refl in
      ((named, sign), (refl, ((fresh.0, k.0), (k.1, refl))))
  after_unban_channel-IsUnban primary args id b (false, c) fresh named sign e =
      (refl, (id, (named, inr (ap (λ x. x.0) e))))

  unban_id-IsUnban :
      (primary : Bool) (args : List Text) (b : Bans U C) (o : Option ℤ)
      → Fresh b
      → first_id args ≡ o
      → IsUnban primary args b (unban_id users channels primary b o)
  unfolding unban_id
  unban_id-IsUnban primary args b none fresh named = (named, (refl, refl))
  unban_id-IsUnban primary args b (some id) fresh named = elim (Bool-cases (ltb_ℤ id (pos 0))) [
    | inl sign ↦ rw sign (after_unban_channel-IsUnban primary args id b _ fresh named sign refl)
    | inr sign ↦ rw sign (after_unban_user-IsUnban primary args id b _ fresh named sign refl)
  ]

  unban_fields-IsUnban :
      (primary : Bool) (args : List Text) (b : Bans U C)
      → Fresh b
      → IsUnban primary args b (unban_fields users channels primary b args)
  unfolding unban_fields
  unban_fields-IsUnban primary [] b fresh = (refl, (refl, refl))
  unban_fields-IsUnban primary (p ∷ ps) b fresh =
      unban_id-IsUnban primary (p ∷ ps) b (parse_int p) fresh refl

  -- With collections that behave and caches that are right: `/unban` replies that a user or a channel
  -- is unbanned only for the identifier in its first argument, which is negative for a channel; then
  -- the caches are right, `IsUserBanned` or `IsChannelBanned` answers no or an error, the other kind
  -- of bans is as it was, and the primary client, if there is one, is asked to tell a user. An error
  -- of the database is reported only if a write failed. The other replies are given for no argument
  -- or no number, change nothing and ask for nothing.
  handle_unban-IsUnban :
      (primary : Bool) (args : Text) (b : Bans U C)
      → Fresh b
      → IsUnban primary (fields args) b (handle_unban users channels primary args b)
  unfolding handle_unban
  handle_unban-IsUnban primary args b fresh = unban_fields-IsUnban primary (fields args) b fresh
