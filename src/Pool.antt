-- ===== src/Pool.antt =====
-- internal/pool/pool.go: the load balancer over the Telegram clients. A client is known by its
-- position in `all`, the primary client first. The calls under `acquireMu`, and each atomic
-- operation on a counter, are one step.
pub mod Selection
pub mod Leases
pub mod Tickets
use thunder_go.Prelude.{
  ℕ, zero, suc, ◌+◌, ◌-◌, ◌*◌, ◌/◌, ◌%◌, ◌^◌, ◌≤◌, ◌<◌, min, max, ◌≡◌, refl, sym, ap, ◌∙◌, subst,
  ◌≢◌, ◌↔◌, ◌⊎◌, inl, inr, Bool, true, false, not, ◌&&◌, ◌||◌, Option, none, some, List, [], ◌∷◌,
  ◌++◌, map, append-nil, append_assoc, arith, length, get_elem?, set, take, drop, length-append,
  length-take, length-drop, All, All-append, All-map, ltb, leb, ◌==◌, if◌then◌else◌, tests, leb→le,
  le→leb, leb-false→lt, ltb→lt, lt→ltb, ltb-false→le, Bool-cases, Option-cases,
}
use thunder_go.Prelude.Int.{ℤ, pos, negsuc}

pub record Pool : Type 0 where
  -- `Inflight` of each client
  pub inflight : List ℕ
  pub max_concurrent : ℕ

-- `MaxConcurrentPerClient`, or 8 if that is not positive.
unfoldable pub cap_of : ℤ → ℕ
cap_of (negsuc n) = 8
cap_of (pos zero) = 8
cap_of (pos (suc n)) = suc n

zeros : ℕ → List ℕ
zeros zero = []
zeros (suc n) = 0 ∷ zeros n

-- The clients that start are idle.
unfoldable pub new_pool : ℤ → ℕ → Pool
unfolding cap_of zeros
new_pool max_concurrent_per_client clients = record {
  inflight = zeros clients;
  max_concurrent = cap_of max_concurrent_per_client;
}

-- The best client so far: its position and its count.
abbrev pub Best : Type 0
Best = Option (ℕ × ℕ)

better : ℕ → Best → Bool
better n none = true
better n (some (i, count)) = ltb n count

-- The loop over `p.all`, at position `i`.
pub pick_from : ℕ → ℕ → Best → List ℕ → Best
unfolding better
pick_from cap i best [] = best
pick_from cap i best (n ∷ ns) =
    pick_from cap (i + 1) (if leb cap n then best else if better n best then some (i, n) else best)
      ns

abbrev position : Best → Option ℕ
position none = none
position (some (i, n)) = some i

unfoldable pub pick : Pool → Option ℕ
unfolding pick_from
pick p = position (pick_from p.max_concurrent 0 none p.inflight)

abbrev add_at : ℕ → List ℕ → List ℕ
add_at i [] = []
add_at zero (n ∷ ns) = (n + 1) ∷ ns
add_at (suc i) (n ∷ ns) = n ∷ add_at i ns

abbrev sub_at : ℕ → List ℕ → List ℕ
sub_at i [] = []
sub_at zero (n ∷ ns) = (n - 1) ∷ ns
sub_at (suc i) (n ∷ ns) = n ∷ sub_at i ns

pub reserve : Pool → Option ℕ → Option ℕ × Pool
reserve p none = (none, p)
reserve p (some i) = (some i, record p { inflight = add_at i p.inflight })

-- The position of the client that was chosen and reserved, if one is under the cap.
unfoldable pub acquire_best : Pool → Option ℕ × Pool
unfolding reserve
acquire_best p = reserve p (pick p)

-- What the release callback of a client does, the first time that it is called.
unfoldable pub release : ℕ → Pool → Pool
release i p = record p { inflight = sub_at i p.inflight }

abbrev pub sum : List ℕ → ℕ
sum [] = 0
sum (n ∷ ns) = n + sum ns

unfoldable pub total_inflight : Pool → ℕ
total_inflight p = sum p.inflight
