-- ===== src/RateLimit.antt =====
-- internal/ratelimit/ratelimit.go: the sharded GCRA limiter. Times are nanoseconds, as numbers
-- without a bound. `time.Now` is the argument `now`, and a call under the shard's mutex is one step.
pub mod Shards
pub mod Gcra
pub mod Waiting
pub mod Sweeping
use thunder_go.Prelude.{
  ℕ, zero, suc, ◌+◌, ◌-◌, ◌*◌, ◌/◌, ◌%◌, ◌^◌, ◌≤◌, ◌<◌, min, max, ◌≡◌, refl, sym, ap, ◌∙◌, subst,
  ◌≢◌, ◌↔◌, ◌⊎◌, inl, inr, Bool, true, false, not, ◌&&◌, ◌||◌, Option, none, some, List, [], ◌∷◌,
  ◌++◌, map, append-nil, append_assoc, arith, length, get_elem?, set, take, drop, length-append,
  length-take, length-drop, All, All-append, All-map, ltb, leb, ◌==◌, if◌then◌else◌, tests,
  Bool-cases, Option-cases,
}
use thunder_go.Prelude.Int.{ℤ, pos, negsuc, eqb_ℤ, ltb_ℤ}
use thunder_go.Prelude.Assoc.{lookup, remove, insert, keep}

abbrev pub num_shards : ℕ
num_shards = 16

-- user ID → TAT
abbrev pub Shard : Type 0
Shard = List (ℤ × ℕ)

-- `shards i` is the shard at index `i`, below `num_shards`.
pub record Limiter : Type 0 where
  pub cap : ℤ
  pub window : ℕ
  pub shards : ℕ → Shard

unfoldable pub new : ℤ → ℕ → Limiter
new cap window = record { cap = cap; window = window; shards = λ i. [] }

-- userID & 15, in two's complement.
unfoldable pub shard_index : ℤ → ℕ
shard_index (pos n) = n % num_shards
shard_index (negsuc n) = 15 - n % num_shards

unfoldable pub set_shard : Limiter → ℕ → Shard → Limiter
set_shard l k s = record l { shards = λ i. if i == k then s else l.shards i }

abbrev pub or_zero : Option ℕ → ℕ
or_zero none = 0
or_zero (some t) = t

-- A fresh `atomic.Int64` holds 0.
unfoldable pub tat_of : Limiter → ℤ → ℕ
unfolding shard_index
tat_of l user = or_zero (lookup eqb_ℤ user (l.shards (shard_index user)))

unfoldable pub store_tat : Limiter → ℤ → ℕ → Limiter
unfolding set_shard shard_index
store_tat l user t =
    set_shard l (shard_index user) (insert eqb_ℤ user t (l.shards (shard_index user)))

pub record Verdict : Type 0 where
  pub allowed : Bool
  pub retry_after : ℕ

unfoldable pub advance : ℕ → ℕ → ℕ → ℕ → ℕ
advance period now old n = (if ltb old now then now else old) + period * n

-- What runs under the mutex, for 0 < n ≤ cap: the entry of a new user is made in either case.
unfoldable pub decide : ℕ → Limiter → ℤ → ℕ → ℕ → Verdict × Limiter
unfolding advance
decide now l user cap n =
    let old = tat_of l user in
    let next = advance (l.window / cap) now old n in
    if ltb l.window (next - now)
    then (record { allowed = false; retry_after = next - l.window - now }, store_tat l user old)
    else (record { allowed = true; retry_after = 0 }, store_tat l user next)

abbrev pub grant : Verdict
grant = record { allowed = true; retry_after = 0 }

pub allow_capped : ℕ → Limiter → ℤ → ℕ → ℤ → Verdict × Limiter
allow_capped now l user cap (negsuc n) = (record { allowed = false; retry_after = 0 }, l)
allow_capped now l user cap (pos zero) = (record { allowed = false; retry_after = 0 }, l)
allow_capped now l user cap (pos (suc n)) =
    if ltb cap (suc n)
    then (record { allowed = false; retry_after = l.window }, l)
    else decide now l user cap (suc n)

allow_with : ℕ → Limiter → ℤ → ℤ → ℤ → Verdict × Limiter
allow_with now l user n (negsuc c) = (grant, l)
allow_with now l user n (pos zero) = (grant, l)
allow_with now l user n (pos (suc c)) = allow_capped now l user (suc c) n

-- A disabled limiter passes everything.
unfoldable pub allow_n : ℕ → Limiter → ℤ → ℤ → Verdict × Limiter
unfolding allow_with allow_capped
allow_n now l user n = allow_with now l user n l.cap

unfoldable pub allow : ℕ → Limiter → ℤ → Bool × Limiter
allow now l user = let (v, l') = allow_n now l user (pos 1) in (v.allowed, l')

abbrev enabled : Limiter → Bool
enabled l = ltb_ℤ (pos 0) l.cap

unfoldable pub reset : Limiter → ℤ → Limiter
unfolding set_shard shard_index
reset l user =
    let k = shard_index user in
    if enabled l then set_shard l k (remove eqb_ℤ user (l.shards k)) else l

-- `cutoff` is one window before `now`.
unfoldable pub sweep : ℕ → Limiter → Limiter
sweep now l =
    if enabled l
    then record l { shards = λ i. keep (λ t. not (ltb (t + l.window) now)) (l.shards i) }
    else l

len_from : ℕ → (ℕ → Shard) → ℕ
len_from zero shards = 0
len_from (suc k) shards = length (shards k) + len_from k shards

unfoldable pub len : Limiter → ℕ
unfolding len_from
len l = len_from num_shards l.shards
