-- ===== src/Bot/Links/Asked.antt =====
-- internal/bot/handlers_link.go: when `/link` starts a batch.
use thunder_go.Prelude.{
  ◌≡◌, refl, ap, subst, inl, inr, Bool, true, false, not, ◌||◌, Option, none, some, arith,
  if◌then◌else◌, Bool-cases,
}
use thunder_go.Bot.Links.{
  LinkAction, usage_group, not_admin, usage_reply, usage_range, single, batch, of_count,
  handle_link,
}
use thunder_go.Prelude.Int.{ℤ, pos, ltb_ℤ, leb_ℤ}
use thunder_go.Prelude.Text.{Text, is_empty, trim_space}
use thunder_go.Prelude.Text.Decimal.{parse_int}

-- A test that ends the call is not passed by a batch.
passed :
    (b : Bool) (x y : LinkAction) (n : ℤ)
    → ((m : ℤ) → x ≡ batch m → ⊥)
    → (if b then x else y) ≡ batch n
    → (b ≡ false) × (y ≡ batch n)
passed true x y n k h = absurd (k n h)
passed false x y n k h = (refl, h)

of_count-batch :
    (cap : ℤ) (o : Option ℤ) (n : ℤ)
    → of_count cap o ≡ batch n
    → (o ≡ some n) × ((leb_ℤ (pos 2) n ≡ true) × (leb_ℤ n cap ≡ true))
unfolding of_count
of_count-batch cap none n h = cc
of_count-batch cap (some m) n h =
    let one = passed (ltb_ℤ m (pos 1) || ltb_ℤ cap m) usage_range _ n (λ k e. cc e) h in
    elim (Bool-cases (ltb_ℤ (pos 1) m)) [
      | inl e ↦
          let same : m ≡ n = cc (rw e at one.1) in
          (
            ap (λ k. some k) same,
            (
              subst (λ k. leb_ℤ (pos 2) k ≡ true) same (ground arith),
              subst (λ k. leb_ℤ k cap ≡ true) same (ground arith),
            ),
          )
      | inr e ↦ cc (rw e at one.1)
    ]

-- `/link` starts a batch of a number of messages only in a group in which the bot is an
-- administrator, as a reply, for an argument that is that number, which is two at least and the
-- configured limit at most.
handle_link-batch :
    (cap : ℤ) (is_private is_admin is_reply : Bool) (args : Text) (n : ℤ)
    → handle_link cap is_private is_admin is_reply args ≡ batch n
    → (is_private ≡ false)
      × ((is_admin ≡ true)
          × ((is_reply ≡ true)
              × ((parse_int (trim_space args) ≡ some n)
                  × ((leb_ℤ (pos 2) n ≡ true) × (leb_ℤ n cap ≡ true)))))
unfolding handle_link
handle_link-batch cap is_private is_admin is_reply args n h =
    let one = passed is_private usage_group _ n (λ k e. cc e) h in
    let two = passed (not is_admin) not_admin _ n (λ k e. cc e) one.1 in
    let three = passed (not is_reply) usage_reply _ n (λ k e. cc e) two.1 in
    let four = passed (is_empty args) single _ n (λ k e. cc e) three.1 in
    let five = of_count-batch cap (parse_int (trim_space args)) n four.1 in
    (one.0, (ground arith, (ground arith, five)))
