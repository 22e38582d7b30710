-- ===== src/Prelude/Below.antt =====
-- A test of every number below a bound, for facts about bytes that are checked by evaluation.
use thunder_go.Prelude.{ℕ, zero, suc, ◌<◌, ◌≡◌, Bool, true, ◌&&◌, arith}

unfoldable pub table_holds : (ℕ → Bool) → ℕ → Bool
table_holds test zero = true
table_holds test (suc bound) = table_holds test bound && test bound

pub table_holds_at :
    (test : ℕ → Bool) (bound v : ℕ) → v < bound → table_holds test bound ≡ true → test v ≡ true
unfolding table_holds
table_holds_at test zero v inside whole = absurd (omega arith)
table_holds_at test (suc bound) v inside whole = ground (arith, table_holds_at test bound v)
