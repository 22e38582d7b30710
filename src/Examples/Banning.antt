-- ===== src/Examples/Banning.antt =====
-- `/ban` over collections as lists of identifiers.
use thunder_go.Prelude.{◌≡◌, refl, true, List}
use thunder_go.Bot.Bans.{Bans, handle_ban, banned_user}
use thunder_go.Bot.Bans.Banned.{AllFresh, IsTrue, handle_ban-IsTrue}
use thunder_go.Examples.Bans.{holds, listed, listed-IsCollection, no_bans, no_bans-IsFresh}
use thunder_go.Prelude.Int.{ℤ, pos}
use thunder_go.Prelude.Text.{codes}
use thunder_go.Prelude.Text.Words.{fields, join_words}
use thunder_go.Prelude.Text.Decimal.{parse_int}
use thunder_go.Store.Flags.{flag}

abbrev none_banned : Bans (List ℤ) (List ℤ)
none_banned = record { users = no_bans; channels = no_bans }

banned_seven :
    (handle_ban listed listed true (codes " 7  too much") (pos 1) none_banned).reply
    ≡ banned_user (pos 7) (codes "too much")
unfolding handle_ban fields parse_int flag join_words
banned_seven = refl

none_banned-AllFresh :
    AllFresh listed listed holds holds listed-IsCollection listed-IsCollection none_banned
none_banned-AllFresh = (no_bans-IsFresh, no_bans-IsFresh)

handle_ban-IsTrue_example :
    IsTrue listed listed holds holds listed-IsCollection listed-IsCollection true
      (fields (codes " 7  too much"))
      (pos 1)
      none_banned
      (handle_ban listed listed true (codes " 7  too much") (pos 1) none_banned)
handle_ban-IsTrue_example =
    handle_ban-IsTrue listed listed holds holds listed-IsCollection listed-IsCollection true
      (codes " 7  too much") (pos 1) none_banned none_banned-AllFresh
