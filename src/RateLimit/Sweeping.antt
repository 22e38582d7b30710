-- ===== src/RateLimit/Sweeping.antt =====
-- internal/ratelimit/ratelimit.go: `Sweep`, and the answers after it.
use thunder_go.Prelude.{
  ℕ, suc, ◌+◌, ◌≤◌, ◌≡◌, refl, ◌∙◌, Bool, not, Option, none, some, List, [], ◌∷◌, arith, ltb,
  if◌then◌else◌,
}
use thunder_go.Prelude.Int.{ℤ, pos, eqb_ℤ, eqb_ℤ_iff}
use thunder_go.Prelude.Assoc.{lookup, keep}
use thunder_go.RateLimit.{Limiter, Shard, shard_index, tat_of, sweep, allow_n}
use thunder_go.RateLimit.Gcra.{Enabled}
use thunder_go.RateLimit.Waiting.{verdict-allow_n, verdict}

keys : Shard → List ℤ
keys [] = []
keys ((k, t) ∷ s) = k ∷ keys s

-- Go's maps hold a key once.
abbrev Absent : ℤ → Shard → Type 0
Absent k s = lookup eqb_ℤ k s ≡ none

abbrev pub IsMap : Shard → Type 0
IsMap [] = Unit {0}
IsMap ((k, t) ∷ s) = Absent k s × IsMap s

keep-Absent : (p : ℕ → Bool) (k : ℤ) (s : Shard) → Absent k s → Absent k (keep p s)
unfolding lookup keep
keep-Absent p k [] h = refl
keep-Absent p k ((j, t) ∷ s) h = ground (arith, keep-Absent p k s)

-- What `keep` leaves of a key.
abbrev kept : (ℕ → Bool) → Option ℕ → Option ℕ
kept p none = none
kept p (some t) = if p t then some t else none

lookup-keep :
    (p : ℕ → Bool) (k : ℤ) (s : Shard)
    → IsMap s
    → lookup eqb_ℤ k (keep p s) ≡ kept p (lookup eqb_ℤ k s)
unfolding lookup keep
lookup-keep p k [] h = refl
lookup-keep p k ((j, t) ∷ s) h =
    ground (arith, lookup-keep p k s h.1, eqb_ℤ_iff j k, keep-Absent p j s h.0)

abbrev pub IsMaps : Limiter → Type 0
IsMaps l = (i : ℕ) → IsMap (l.shards i)

pub tat_of-sweep :
    (now : ℕ) (l : Limiter) (user : ℤ) (c : ℕ)
    → Enabled l c
    → IsMaps l
    → tat_of (sweep now l) user ≡ (if ltb (tat_of l user + l.window) now then 0 else tat_of l user)
unfolding tat_of sweep
tat_of-sweep now l user c e m = ground (
  arith,
  lookup-keep (λ t. not (ltb (t + l.window) now)) user (l.shards (shard_index user))
      (m (shard_index user)),
)

cap-sweep : (now : ℕ) (l : Limiter) → (sweep now l).cap ≡ l.cap
unfolding sweep
cap-sweep now l = ground arith

window-sweep : (now : ℕ) (l : Limiter) → (sweep now l).window ≡ l.window
unfolding sweep
window-sweep now l = ground arith

-- A sweep changes no answer: at any later time a request gets the verdict that it would have got
-- from the limiter that was not swept.
pub allow_n-sweep :
    (swept now : ℕ) (l : Limiter) (user : ℤ) (c n : ℕ)
    → Enabled l c
    → IsMaps l
    → swept ≤ now
    → n ≤ c
    → (allow_n now (sweep swept l) user (pos (suc n))).0 ≡ (allow_n now l user (pos (suc n))).0
unfolding verdict
allow_n-sweep swept now l user c n e m later fits =
    rw
      (
        verdict-allow_n now (sweep swept l) user c n (cap-sweep swept l ∙ e) fits,
        verdict-allow_n now l user c n e fits,
        tat_of-sweep swept l user c e m,
        window-sweep swept l,
      )
      (ground arith)
