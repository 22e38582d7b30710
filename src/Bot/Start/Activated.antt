-- ===== src/Bot/Start/Activated.antt =====
-- internal/bot/handlers_basic.go: what a reply to `/start` says of the sender.
use thunder_go.Prelude.{
  ℕ, ◌+◌, ◌*◌, ◌<◌, ◌≡◌, refl, sym, ap, ◌∙◌, subst, ◌≢◌, inl, inr, Bool, true, false, not, ◌&&◌,
  Option, none, some, Bool-cases,
}
use thunder_go.Bot.Start.{
  StartReply, activation_invalid, internal, activated, welcome, Gate, after_activate, after_consume,
  consume_activation, handle_start, hour,
}
use thunder_go.Config.{Config}
use thunder_go.Prelude.Int.{ℤ}
use thunder_go.Prelude.Text.{Text, is_empty}
use thunder_go.Cache.Laws.{Distinct}
use thunder_go.Store.Activations.{ActivatedUsers, activate_user, is_user_activated}
use thunder_go.Store.Activations.Fresh.{Counts, is_user_activated-activate_user}
use thunder_go.Store.Flags.{Flags}
use thunder_go.Store.Tokens.Once.{Deletes}
use thunder_go.Store.Tokens.{consumed_of, Tokens, consumed_of, consume_activation_token}

module _ {T A : Type 0} (tokens : Tokens T) (users : ActivatedUsers A) (has : Text → T → Bool)
    (laws : Deletes tokens has) (counts : Counts users) where
  -- What `IsUserActivated` answers next, unless it is an error or counts after the activation has
  -- expired.
  abbrev pub IsActive : ℕ → ℤ → Flags A → Type 0
  IsActive expires_at sender f =
      (now later : ℕ) (v : Bool)
      → later < expires_at
      → (is_user_activated users now later sender f).0 ≡ some v
      → v ≡ true

  -- The reply, with what it says of the token, before and after, and of the activations.
  abbrev pub IsTrue : ℕ → ℕ → ℕ → Text → ℤ → Gate T A → StartReply × Gate T A → Type 0
  IsTrue now at hours payload sender g (activated t, g') =
      ((has payload g.tokens ≡ true) × (has payload g'.tokens ≡ false))
      × IsActive (at + hours * hour) sender g'.activations
  IsTrue now at hours payload sender g (activation_invalid, g') =
      ((tokens.find_one_and_delete payload now g.tokens).0 ≢ some true)
      × (g'.activations ≡ g.activations)
  IsTrue now at hours payload sender g (internal, g') =
      ((has payload g.tokens ≡ true) × (has payload g'.tokens ≡ false))
      × ((activate_user users at (hours * hour) sender g.activations).0 ≡ false)
  IsTrue now at hours payload sender g (welcome b, g') = g' ≡ g

  after_activate-IsTrue :
      (now at hours : ℕ) (payload : Text) (sender : ℤ) (g : Gate T A) (t : T)
      → Distinct g.activations.cache.ll
      → (has payload g.tokens ≡ true) × (has payload t ≡ false)
      → IsTrue now at hours payload sender g (
          after_activate tokens users hours t
            (activate_user users at (hours * hour) sender g.activations))
  after_activate-IsTrue now at hours payload sender g t distinct used =
      go (activate_user users at (hours * hour) sender g.activations) refl
    where
      go :
          (r : Bool × Flags A)
          → activate_user users at (hours * hour) sender g.activations ≡ r
          → IsTrue now at hours payload sender g (after_activate tokens users hours t r)
      go (true, f) e =
          unfold after_activate in
          (
            used,
            λ n l v before q.
                is_user_activated-activate_user users counts at (hours * hour) n l sender
                  g.activations v distinct (ap (λ r. r.0) e) before
                  (subst (λ x. (is_user_activated users n l sender x.1).0 ≡ some v) (sym e) q),
          )
      go (false, f) e = unfold after_activate in (used, ap (λ r. r.0) e)

  consume_activation-IsTrue :
      (now at hours : ℕ) (payload : Text) (sender : ℤ) (g : Gate T A)
      → Distinct g.activations.cache.ll
      → IsTrue now at hours payload sender g
          (consume_activation tokens users now at hours payload sender g)
  unfolding consume_activation consume_activation_token
  consume_activation-IsTrue now at hours payload sender g distinct =
      go (tokens.find_one_and_delete payload now g.tokens) refl
    where
      go :
          (r : Option Bool × T)
          → tokens.find_one_and_delete payload now g.tokens ≡ r
          → IsTrue now at hours payload sender g
              (after_consume tokens users at hours sender g.activations (consumed_of r.0, r.1))
      go (some true, t) e =
          unfold consumed_of after_consume in
          after_activate-IsTrue now at hours payload sender g t distinct (
            laws.found_had payload now g.tokens (ap (λ r. r.0) e),
            subst (λ r. has payload r.1 ≡ false) e
                (laws.found_gone payload now g.tokens (ap (λ r. r.0) e)),
          )
      go (some false, t) e =
          unfold consumed_of after_consume in
          ((λ k. let c : some false ≡ some true = sym (ap (λ r. r.0) e) ∙ k in cc), refl)
      go (none, t) e =
          unfold consumed_of after_consume in
          ((λ k. let c : none ≡ some true = sym (ap (λ r. r.0) e) ∙ k in cc), refl)

  -- With a FindOneAndDelete that deletes the token that it finds, a collection that counts an
  -- activation that was written until it expires, and a cache with one entry for a key at most:
  -- `/start` with a token tells its sender that the bot is activated only if the token was there and
  -- is there no more, and then the next `IsUserActivated`, unless it counts after the activation has
  -- expired, answers yes or an error; that the token is invalid only if it was not found or the
  -- search failed, and no activation has changed; that there is an internal error only if the token
  -- was there and is there no more, but the activation could not be written. A welcome changes
  -- nothing of either.
  pub handle_start-IsTrue :
      (cfg : Config) (now at hours : ℕ) (inserted : Bool) (args : Text) (sender : ℤ) (g : Gate T A)
      → Distinct g.activations.cache.ll
      → IsTrue now at hours args sender g
          (handle_start tokens users cfg now at hours inserted args sender g)
  unfolding handle_start
  handle_start-IsTrue cfg now at hours inserted args sender g distinct =
      elim (Bool-cases (cfg.token_enabled && not (is_empty args))) [
        | inl e ↦ rw e (consume_activation-IsTrue now at hours args sender g distinct)
        | inr e ↦ rw e refl
      ]
