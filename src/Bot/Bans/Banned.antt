-- ===== src/Bot/Bans/Banned.antt =====
-- internal/bot/handlers_owner.go: what the replies to `/ban` say.
use thunder_go.Prelude.{
  ℕ, ◌≡◌, refl, sym, ap, ◌∙◌, subst, ◌≢◌, ◌⊎◌, inl, inr, Bool, true, false, Option, none, some,
  List, [], ◌∷◌, if◌then◌else◌, Bool-cases,
}
use thunder_go.Bot.Bans.{
  BanReply, usage_ban, banned_self, invalid_channel, banned_channel, banned_user, Request,
  leave_channel, ban_notice, Bans, Answer, after_ban_channel, after_ban_user, ban_id, ban_fields,
  handle_ban,
}
use thunder_go.Config.{min_channel_id}
use thunder_go.Prelude.Int.{ℤ, pos, ltb_ℤ, leb_ℤ, eqb_ℤ, eqb_ℤ_iff}
use thunder_go.Prelude.Text.{Text}
use thunder_go.Prelude.Text.Decimal.{parse_int}
use thunder_go.Prelude.Text.Words.{fields, join_words}
use thunder_go.Store.Flags.{Collection, Flags, flag, is_flagged}
use thunder_go.Store.Flags.Fresh.{IsCollection, IsFresh, is_flagged-Answers, flag-IsFresh}

-- The identifier that the arguments start with.
abbrev pub first_id : List Text → Option ℤ
first_id [] = none
first_id (p ∷ ps) = parse_int p

-- What `IsUserBanned` and its like answer, unless it is an error, at any times of the two accesses
-- of the cache.
abbrev pub Says : {S : Type 0} → Collection S → Bool → ℤ → Flags S → Type 0
Says db answer id f =
    (now later : ℕ) (v : Bool) → (is_flagged db now later id f).0 ≡ some v → v ≡ answer

flag-Says :
    {S : Type 0} (db : Collection S) (has : S → ℤ → Bool) (laws : IsCollection db has) (id : ℤ)
    (f : Flags S) (r : Bool × Flags S)
    → IsFresh db has laws f
    → flag db id f ≡ r
    → r.0 ≡ true
    → IsFresh db has laws r.1 × Says db true id r.1
flag-Says db has laws id f r fresh e ok =
    let k = flag-IsFresh db has laws id f fresh (ap (λ x. x.0) e ∙ ok) in
    let r_fresh : IsFresh db has laws r.1 = subst (λ x. IsFresh db has laws x.1) e k.0 in
    let there : has r.1.documents id ≡ true = subst (λ x. has x.1.documents id ≡ true) e k.1 in
    (r_fresh, λ n l v q. (is_flagged-Answers db has laws n l id r.1 r_fresh).0 v q ∙ there)

module _ {U C : Type 0} (users : Collection U) (channels : Collection C) (has_user : U → ℤ → Bool)
    (has_channel : C → ℤ → Bool) (user_laws : IsCollection users has_user)
    (channel_laws : IsCollection channels has_channel) where
  abbrev pub AllFresh : Bans U C → Type 0
  AllFresh b =
      IsFresh users has_user user_laws b.users
      × IsFresh channels has_channel channel_laws b.channels

  -- The reply, with what it says.
  abbrev IsTrueOf : BanReply → Bool → List Text → ℤ → Bans U C → List Request → Bans U C → Type 0
  IsTrueOf (banned_user id reason) primary args sender b rs b' =
      ((first_id args ≡ some id) × ((id ≢ sender) × (ltb_ℤ id (pos 0) ≡ false)))
      × ((rs ≡ (if primary then ban_notice id reason ∷ [] else []))
          × (AllFresh b' × (Says users true id b'.users × (b'.channels ≡ b.channels))))
  IsTrueOf (banned_channel id reason) primary args sender b rs b' =
      ((first_id args ≡ some id) × ((id ≢ sender) × (leb_ℤ min_channel_id id ≡ false)))
      × ((rs ≡ (if primary then leave_channel id ∷ [] else []))
          × (AllFresh b' × (Says channels true id b'.channels × (b'.users ≡ b.users))))
  IsTrueOf BanReply.db_operation primary args sender b rs b' =
      (rs ≡ [])
      × ((id : ℤ) × ((first_id args ≡ some id)
            × (((flag users id b.users).0 ≡ false) ⊎ ((flag channels id b.channels).0 ≡ false))))
  IsTrueOf usage_ban primary args sender b rs b' = (args ≡ []) × ((rs ≡ []) × (b' ≡ b))
  IsTrueOf BanReply.invalid_id primary args sender b rs b' =
      (first_id args ≡ none) × ((rs ≡ []) × (b' ≡ b))
  IsTrueOf banned_self primary args sender b rs b' =
      (first_id args ≡ some sender) × ((rs ≡ []) × (b' ≡ b))
  IsTrueOf invalid_channel primary args sender b rs b' =
      ((id : ℤ) × ((first_id args ≡ some id)
          × ((ltb_ℤ id (pos 0) ≡ true) × (leb_ℤ min_channel_id id ≡ true))))
      × ((rs ≡ []) × (b' ≡ b))

  abbrev pub IsTrue : Bool → List Text → ℤ → Bans U C → Answer BanReply U C → Type 0
  IsTrue primary args sender b a = IsTrueOf a.reply primary args sender b a.requests a.bans

  after_ban_user-IsTrue :
      (primary : Bool) (args : List Text) (sender id : ℤ) (reason : Text) (b : Bans U C)
      (r : Bool × Flags U)
      → AllFresh b
      → first_id args ≡ some id
      → id ≢ sender
      → ltb_ℤ id (pos 0) ≡ false
      → flag users id b.users ≡ r
      → IsTrue primary args sender b (after_ban_user users channels primary id reason b.channels r)
  unfolding after_ban_user
  after_ban_user-IsTrue primary args sender id reason b (true, u) fresh named other sign e =
      let k = flag-Says users has_user user_laws id b.users (true, u) fresh.0 e refl in
      ((named, (other, sign)), (refl, ((k.0, fresh.1), (k.1, refl))))
  after_ban_user-IsTrue primary args sender id reason b (false, u) fresh named other sign e =
      (refl, (id, (named, inl (ap (λ x. x.0) e))))

  after_ban_channel-IsTrue :
      (primary : Bool) (args : List Text) (sender id : ℤ) (reason : Text) (b : Bans U C)
      (r : Bool × Flags C)
      → AllFresh b
      → first_id args ≡ some id
      → id ≢ sender
      → leb_ℤ min_channel_id id ≡ false
      → flag channels id b.channels ≡ r
      → IsTrue primary args sender b (after_ban_channel users channels primary id reason b.users r)
  unfolding after_ban_channel
  after_ban_channel-IsTrue primary args sender id reason b (true, c) fresh named other small e =
      let k = flag-Says channels has_channel channel_laws id b.channels (true, c) fresh.1 e refl in
      ((named, (other, small)), (refl, ((fresh.0, k.0), (k.1, refl))))
  after_ban_channel-IsTrue primary args sender id reason b (false, c) fresh named other small e =
      (refl, (id, (named, inr (ap (λ x. x.0) e))))

  ban_id-IsTrue :
      (primary : Bool) (args : List Text) (sender : ℤ) (reason : Text) (b : Bans U C) (o : Option ℤ)
      → AllFresh b
      → first_id args ≡ o
      → IsTrue primary args sender b (ban_id users channels primary sender reason b o)
  unfolding ban_id
  ban_id-IsTrue primary args sender reason b none fresh named = (named, (refl, refl))
  ban_id-IsTrue primary args sender reason b (some id) fresh named =
      elim (Bool-cases (eqb_ℤ id sender)) [
        | inl same ↦ rw same (named ∙ ap (λ i. some i) ((eqb_ℤ_iff id sender).0 same), (refl, refl))
        | inr other ↦
            let ne : id ≢ sender =
              λ same. let t : true ≡ false = sym ((eqb_ℤ_iff id sender).1 same) ∙ other in cc t in
            rw other (elim (Bool-cases (ltb_ℤ id (pos 0))) [
              | inl negative ↦ rw negative (elim (Bool-cases (leb_ℤ min_channel_id id)) [
                | inl large ↦ rw large ((id, (named, (negative, large))), (refl, refl))
                | inr small ↦ rw small (
                    after_ban_channel-IsTrue primary args sender id reason b _ fresh named ne small
                      refl)
              ])
              | inr sign ↦
                  rw sign (
                    after_ban_user-IsTrue primary args sender id reason b _ fresh named ne sign
                      refl)
            ])
      ]

  ban_fields-IsTrue :
      (primary : Bool) (args : List Text) (sender : ℤ) (b : Bans U C)
      → AllFresh b
      → IsTrue primary args sender b (ban_fields users channels primary sender b args)
  unfolding ban_fields
  ban_fields-IsTrue primary [] sender b fresh = (refl, (refl, refl))
  ban_fields-IsTrue primary (p ∷ ps) sender b fresh =
      ban_id-IsTrue primary (p ∷ ps) sender (join_words ps) b (parse_int p) fresh refl

  -- With collections that behave and caches that are right: `/ban` replies that a user or a channel
  -- is banned only for the identifier in its first argument, which is not the sender's, and is below
  -- -1000000000000 for a channel; then the caches are right, `IsUserBanned` or `IsChannelBanned`
  -- answers yes or an error, the other kind of bans is as it was, and the primary client, if there is
  -- one, is asked to tell the user or to leave the channel. An error of the database is reported only
  -- if a write failed. The other replies are given for no argument, no number, the sender's own
  -- identifier or a negative number that is no channel, change nothing and ask for nothing.
  pub handle_ban-IsTrue :
      (primary : Bool) (args : Text) (sender : ℤ) (b : Bans U C)
      → AllFresh b
      → IsTrue primary (fields args) sender b (handle_ban users channels primary args sender b)
  unfolding handle_ban
  handle_ban-IsTrue primary args sender b fresh =
      ban_fields-IsTrue primary (fields args) sender b fresh
