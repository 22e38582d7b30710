-- ===== src/RateLimit/Shards.antt =====
-- internal/ratelimit/ratelimit.go: the TAT of each user in the shards.
use thunder_go.Prelude.{ℕ, ◌<◌, ◌≡◌, arith, if◌then◌else◌}
use thunder_go.Prelude.Int.{ℤ, eqb_ℤ, eqb_ℤ_iff}
use thunder_go.Prelude.Assoc.{lookup-insert}
use thunder_go.RateLimit.{Limiter, shard_index, tat_of, store_tat, num_shards}

pub shard_index-lt : (user : ℤ) → shard_index user < num_shards
unfolding shard_index
shard_index-lt user = ground arith

pub tat_of-store_tat :
    (l : Limiter) (user other : ℤ) (t : ℕ)
    → tat_of (store_tat l user t) other ≡ (if eqb_ℤ user other then t else tat_of l other)
unfolding tat_of store_tat
tat_of-store_tat l user other t = ground (
  arith,
  eqb_ℤ_iff user other,
  lookup-insert eqb_ℤ eqb_ℤ_iff user other t (l.shards (shard_index user)),
)
