-- ===== src/Examples/Limits.antt =====
-- A limiter of one request in ten nanoseconds.
use thunder_go.Prelude.{◌+◌, ◌-◌, ◌*◌, ◌≤◌, ◌≡◌, refl, ◌∙◌, false, List, [], ◌∷◌, arith, leb}
use thunder_go.Prelude.Assoc
use thunder_go.Prelude.Int.{pos}
use thunder_go.RateLimit.{
  advance, store_tat, set_shard, shard_index, Limiter, new, tat_of, sweep, allow_n, decide,
}
use thunder_go.RateLimit.Gcra.{Enabled, allow_n-Effect, Request, granted_to, granted_bound, period}
use thunder_go.RateLimit.Waiting.{retry_after_exact}
use thunder_go.RateLimit.Sweeping.{IsMaps, allow_n-sweep}

abbrev slow : Limiter
slow = new (pos 1) 10

-- The limiter once the user has been granted a request at time 100.
abbrev busy : Limiter
busy = (allow_n 100 slow (pos 7) (pos 1)).1

slow-Enabled : Enabled slow 0
unfolding new
slow-Enabled = refl

slow_tat : tat_of slow (pos 7) ≡ 0
unfolding new tat_of Assoc.lookup
slow_tat = refl

slow-IsMaps : IsMaps slow
unfolding new
slow-IsMaps i = tt

abbrev two_requests : List Request
two_requests =
    record { at = 100; user = pos 7; slots = 1 } ∷ record { at = 105; user = pos 7; slots = 1 } ∷ []

granted_bound_example :
    period slow 0 * granted_to (pos 7) slow two_requests ≤ slow.window + (120 - 100)
granted_bound_example =
    granted_bound (pos 7) slow 0 100 120 two_requests slow-Enabled
      (omega arith, (omega arith, omega arith)) (omega (arith, slow_tat))

busy-Enabled : Enabled busy 0
busy-Enabled = (allow_n-Effect 100 slow (pos 7) 0 1 slow-Enabled).cap ∙ slow-Enabled

busy_refuses : (allow_n 102 busy (pos 7) (pos 1)).0.allowed ≡ false
unfolding allow_n decide advance new tat_of store_tat set_shard shard_index Assoc.lookup
    Assoc.insert
busy_refuses = refl

retry_after_exact_example :
    (allow_n (102 + 8) (allow_n 102 busy (pos 7) (pos 1)).1 (pos 7) (pos 1)).0.allowed
    ≡ leb (allow_n 102 busy (pos 7) (pos 1)).0.retry_after 8
retry_after_exact_example =
    retry_after_exact 102 8 busy (pos 7) 0 0 busy-Enabled (omega arith) busy_refuses

allow_n-sweep_example :
    (allow_n 200 (sweep 150 slow) (pos 7) (pos 1)).0 ≡ (allow_n 200 slow (pos 7) (pos 1)).0
allow_n-sweep_example =
    allow_n-sweep 150 200 slow (pos 7) 0 0 slow-Enabled slow-IsMaps (omega arith) (omega arith)
