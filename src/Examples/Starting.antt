-- ===== src/Examples/Starting.antt =====
-- A sender with a token, and a bot that stops while a handler runs.
use thunder_go.Prelude.{ℕ, ◌≡◌, refl, true, ◌&&◌, Option, none, some, arith, ltb, if◌then◌else◌}
use thunder_go.Bot.Slots.{Slots, new_slots, arrive, check, take_slot, stop}
use thunder_go.Bot.Slots.Drained.{
  Reach, here, next, arrives, checks, takes, stops, IsCounted, Drains, work, Reach-Drains,
}
use thunder_go.Bot.Start.{Gate, handle_start}
use thunder_go.Bot.Start.Activated.{IsTrue, handle_start-IsTrue}
use thunder_go.Config.{Config}
use thunder_go.Cache.{new_cache}
use thunder_go.Store.Activations.{ActivatedUsers}
use thunder_go.Store.Activations.Fresh.{Counts}
use thunder_go.Examples.Settings.{settings}
use thunder_go.Examples.Tokens.{token_box, has, token_box-Deletes}
use thunder_go.Prelude.Int.{ℤ, pos, eqb_ℤ, eqb_ℤ_iff}
use thunder_go.Prelude.Text.{Text, codes}

abbrev busy : Slots
busy = record {
  checking = 0;
  acquiring = 0;
  handling = 1;
  ending = 0;
  handler_wg = 1;
  stopped = true;
}

busy-Reach : Reach busy
unfolding new_slots arrive check take_slot stop
busy-Reach = next (next (next (next here (arrives refl)) (checks refl)) (takes refl)) (stops refl)

Reach-Drains_example :
    IsCounted busy
    × (busy.stopped ≡ true → (t : Slots) × (Drains (work busy) busy t) × (t.handler_wg ≡ 0))
Reach-Drains_example = Reach-Drains busy-Reach

abbrev gated : Config
gated = record settings { token_enabled = true }

abbrev counted : ℕ → ℤ → Option (ℕ × ℤ) → Option ℕ
counted time user none = some 0
counted time user (some (expires_at, owner)) =
    some (if ltb time expires_at && eqb_ℤ owner user then 1 else 0)

-- The activation that was written last, with its expiry.
abbrev last_written : ActivatedUsers (Option (ℕ × ℤ))
last_written = record {
  upsert_until = λ expires_at user s. (true, some (expires_at, user));
  delete_one = λ user s. (true, none);
  count_active = counted;
}

last_written-Counts : Counts last_written
last_written-Counts expires_at time user s n ok live c =
    ground (arith, (eqb_ℤ_iff user user).1 refl)

abbrev one_token : Gate (Option Text) (Option (ℕ × ℤ))
one_token = record {
  tokens = some (codes "t");
  activations = record { documents = none; cache = new_cache 10 100 };
}

handle_start-IsTrue_example :
    IsTrue token_box last_written has token_box-Deletes last_written-Counts 5 6 24
      (codes "t")
      (pos 9)
      one_token
      (handle_start token_box last_written gated 5 6 24 true (codes "t") (pos 9) one_token)
handle_start-IsTrue_example =
    handle_start-IsTrue token_box last_written has token_box-Deletes last_written-Counts gated 5 6
      24 true (codes "t") (pos 9) one_token (unfold new_cache in tt)
