-- ===== src/Pool/Tickets.antt =====
-- internal/pool/pool.go: a ticket that is taken and given back.
use thunder_go.Prelude.{ℕ, zero, suc, ◌≡◌, refl, ap, Option, none, some, List, [], ◌∷◌, arith}
use thunder_go.Pool.{Pool, acquire_best, pick, reserve, release, add_at, sub_at}

sub_at-add_at : (i : ℕ) (ns : List ℕ) → sub_at i (add_at i ns) ≡ ns
sub_at-add_at i [] = refl
sub_at-add_at zero (n ∷ ns) = ap (λ m. m ∷ ns) (omega arith)
sub_at-add_at (suc i) (n ∷ ns) = ap (λ m. n ∷ m) (sub_at-add_at i ns)

-- The pool once the ticket that was taken, if any, is given back.
abbrev pub given_back : Option ℕ × Pool → Pool
given_back (none, p) = p
given_back (some i, p) = release i p

given_back-reserve : (p : Pool) (o : Option ℕ) → given_back (reserve p o) ≡ p
unfolding reserve release
given_back-reserve p none = refl
given_back-reserve p (some i) = ap (λ ns. record p { inflight = ns }) (sub_at-add_at i p.inflight)

pub given_back-acquire_best : (p : Pool) → given_back (acquire_best p) ≡ p
unfolding acquire_best
given_back-acquire_best p = given_back-reserve p (pick p)
