-- ===== src/Pool/Leases.antt =====
-- internal/pool/pool.go: the release callbacks of `AcquireBest`, each with its `sync.Once`, as steps of
-- a system that any number of requests share.
use thunder_go.Prelude.{
  ℕ, zero, suc, ◌+◌, ◌-◌, ◌≤◌, ◌≡◌, refl, sym, ap, subst, ◌⊎◌, inl, inr, Bool, true, false, Option,
  none, some, List, [], ◌∷◌, arith, get_elem?, ◌==◌, if◌then◌else◌, Bool-cases,
}
use thunder_go.Prelude.Int.{ℤ}
use thunder_go.Pool.{
  zeros, new_pool, new_pool, ℤ, Pool, Best, acquire_best, release, add_at, sub_at,
}
use thunder_go.Pool.Selection.{IsBest, Chosen, acquire_best-Chosen}

-- A callback that was handed out: its client, and whether its `Once` has run.
pub record Lease : Type 0 where
  pub client : ℕ
  pub done : Bool

pub record System : Type 0 where
  pub pool : Pool
  pub leases : List Lease

abbrev handed : System → Option ℕ × Pool → System
handed s (none, p) = record s { pool = p }
handed s (some i, p) = record { pool = p; leases = record { client = i; done = false } ∷ s.leases }

-- `AcquireBest`, with its callback kept.
pub acquire : System → System
acquire s = handed s (acquire_best s.pool)

run_once : Lease → Pool → Pool
run_once l p = if l.done then p else release l.client p

close : ℕ → List Lease → List Lease
close k [] = []
close zero (l ∷ ls) = record l { done = true } ∷ ls
close (suc k) (l ∷ ls) = l ∷ close k ls

run_found : Option Lease → Pool → Pool
run_found none p = p
run_found (some l) p = run_once l p

-- A call of the callback at position `k`.
pub call : ℕ → System → System
unfolding run_once run_found
call k s = record { pool = run_found (get_elem? s.leases k) s.pool; leases = close k s.leases }

pub data Step : System → System → Type 0 where
  acquires : (s : System) → Step s (acquire s)
  calls : (k : ℕ) (s : System) → Step s (call k s)

pub data Reach (s : System) : System → Type 0 where
  here : Reach s s
  next : {t u : System} → Reach s t → Step t u → Reach s u

abbrev counts : ℕ → Lease → ℕ
counts i l = if l.done then 0 else if l.client == i then 1 else 0

-- The callbacks of a client that have not run.
abbrev pub outstanding : ℕ → List Lease → ℕ
outstanding i [] = 0
outstanding i (l ∷ ls) = counts i l + outstanding i ls

-- Each counter is the number of outstanding callbacks of its client, and within the cap.
pub record Inv (s : System) : Type 0 where
  pub exact : (i n : ℕ) → get_elem? s.pool.inflight i ≡ some n → n ≡ outstanding i s.leases
  pub capped : (i n : ℕ) → get_elem? s.pool.inflight i ≡ some n → n ≤ s.pool.max_concurrent

abbrev bumped : Bool → Option ℕ → Option ℕ
bumped b none = none
bumped b (some n) = some (if b then n + 1 else n)

abbrev dropped : Bool → Option ℕ → Option ℕ
dropped b none = none
dropped b (some n) = some (if b then n - 1 else n)

get_elem?-add_at :
    (k i : ℕ) (ns : List ℕ) → get_elem? (add_at k ns) i ≡ bumped (k == i) (get_elem? ns i)
get_elem?-add_at k i [] = refl
get_elem?-add_at zero zero (n ∷ ns) = refl
get_elem?-add_at zero (suc i) (n ∷ ns) = ground arith
get_elem?-add_at (suc k) zero (n ∷ ns) = ground arith
get_elem?-add_at (suc k) (suc i) (n ∷ ns) = ground (arith, get_elem?-add_at k i ns)

get_elem?-sub_at :
    (k i : ℕ) (ns : List ℕ) → get_elem? (sub_at k ns) i ≡ dropped (k == i) (get_elem? ns i)
get_elem?-sub_at k i [] = refl
get_elem?-sub_at zero zero (n ∷ ns) = refl
get_elem?-sub_at zero (suc i) (n ∷ ns) = ground arith
get_elem?-sub_at (suc k) zero (n ∷ ns) = ground arith
get_elem?-sub_at (suc k) (suc i) (n ∷ ns) = ground (arith, get_elem?-sub_at k i ns)

-- Closing a callback takes its own count away.
outstanding-close :
    (k i : ℕ) (ls : List Lease) (l : Lease)
    → get_elem? ls k ≡ some l
    → outstanding i (close k ls) + counts i l ≡ outstanding i ls
unfolding close
outstanding-close k i [] l h = cc
outstanding-close zero i (x ∷ ls) l h = ground arith
outstanding-close (suc k) i (x ∷ ls) l h = ground (arith, outstanding-close k i ls l h)

close-none : (k : ℕ) (ls : List Lease) → get_elem? ls k ≡ none → close k ls ≡ ls
unfolding close
close-none k [] h = refl
close-none zero (x ∷ ls) h = cc
close-none (suc k) (x ∷ ls) h = ap (◌∷◌ x) (close-none k ls h)

added-Inv :
    (s : System) (i n : ℕ)
    → IsBest s.pool.max_concurrent s.pool.inflight i n
    → Inv s
    → Inv (handed s (some i, record (s.pool) { inflight = add_at i s.pool.inflight }))
added-Inv s i n best v = record {
  exact = λ j m h. go j m h (get_elem? s.pool.inflight j) refl;
  capped = λ j m h. under j m h (get_elem? s.pool.inflight j) refl;
}
  where
    go :
        (j m : ℕ)
        → get_elem? (add_at i s.pool.inflight) j ≡ some m
        → (o : Option ℕ) → get_elem? s.pool.inflight j ≡ o
        → m ≡ counts j (record { client = i; done = false }) + outstanding j s.leases
    go j m h none e = ground (arith, get_elem?-add_at i j s.pool.inflight)
    go j m h (some x) e = ground (arith, get_elem?-add_at i j s.pool.inflight, v.exact j x e)

    under :
        (j m : ℕ)
        → get_elem? (add_at i s.pool.inflight) j ≡ some m
        → (o : Option ℕ) → get_elem? s.pool.inflight j ≡ o
        → m ≤ s.pool.max_concurrent
    under j m h none e = ground (arith, get_elem?-add_at i j s.pool.inflight)
    under j m h (some x) e = elim (Bool-cases (i == j)) [
      | inl same ↦
          (let ij : i ≡ j = ground arith in
            let b = rw ij at best.there in
            ground (arith, get_elem?-add_at i j s.pool.inflight, b, best.under))
      | inr other ↦ ground (arith, get_elem?-add_at i j s.pool.inflight, v.capped j x e)
    ]

acquire-Inv : (s : System) → Inv s → Inv (acquire s)
unfolding acquire
acquire-Inv s v = go (acquire_best-Chosen s.pool)
  where
    go : (b : Best) × Chosen s.pool b (acquire_best s.pool) → Inv (handed s (acquire_best s.pool))
    go (none, (e, full)) =
        subst (λ r. Inv (handed s r)) (sym e) (record { exact = v.exact; capped = v.capped })
    go (some (i, n), (e, best)) = subst (λ r. Inv (handed s r)) (sym e) (added-Inv s i n best v)

call-Inv : (k : ℕ) (s : System) → Inv s → Inv (call k s)
unfolding call release
call-Inv k s v = go (get_elem? s.leases k) refl
  where
    exact_at :
        (j : ℕ) (o : Option ℕ)
        → get_elem? s.pool.inflight j ≡ o
        → (o ≡ none) ⊎ ((x : ℕ) × (o ≡ some x) × (x ≡ outstanding j s.leases))
    exact_at j none p = inl refl
    exact_at j (some x) p = inr (x, refl, v.exact j x p)

    capped_at :
        (j : ℕ) (o : Option ℕ)
        → get_elem? s.pool.inflight j ≡ o
        → (o ≡ none) ⊎ ((x : ℕ) × (o ≡ some x) × (x ≤ s.pool.max_concurrent))
    capped_at j none p = inl refl
    capped_at j (some x) p = inr (x, refl, v.capped j x p)

    exact :
        (l : Lease)
        → get_elem? s.leases k ≡ some l
        → (j m : ℕ) → get_elem? (run_once l s.pool).inflight j ≡ some m
        → (o : Option ℕ) → get_elem? s.pool.inflight j ≡ o
        → m ≡ outstanding j (close k s.leases)
    exact l e j m h o p = ground (
      arith,
      get_elem?-sub_at l.client j s.pool.inflight,
      outstanding-close k j s.leases l e,
      exact_at j o p,
    )

    capped :
        (l : Lease)
        → get_elem? s.leases k ≡ some l
        → (j m : ℕ) → get_elem? (run_once l s.pool).inflight j ≡ some m
        → (o : Option ℕ) → get_elem? s.pool.inflight j ≡ o
        → m ≤ (run_once l s.pool).max_concurrent
    capped l e j m h o p =
        ground (arith, get_elem?-sub_at l.client j s.pool.inflight, capped_at j o p)

    go :
        (o : Option Lease)
        → get_elem? s.leases k ≡ o
        → Inv (record { pool = run_found o s.pool; leases = close k s.leases })
    go none e = rw (close-none k s.leases e) (record { exact = v.exact; capped = v.capped })
    go (some l) e = record {
      exact = λ j m h. exact l e j m h (get_elem? s.pool.inflight j) refl;
      capped = λ j m h. capped l e j m h (get_elem? s.pool.inflight j) refl;
    }

Step-Inv : {s t : System} → Step s t → Inv s → Inv t
Step-Inv (acquires s) v = acquire-Inv s v
Step-Inv (calls k s) v = call-Inv k s v

Reach-Inv : {s t : System} → Inv s → Reach s t → Inv t
Reach-Inv v here = v
Reach-Inv v (next r st) = Step-Inv st (Reach-Inv v r)

get_elem?-zeros : (m i n : ℕ) → get_elem? (zeros m) i ≡ some n → n ≡ 0
unfolding zeros
get_elem?-zeros zero i n h = cc
get_elem?-zeros (suc m) zero n h = ground arith
get_elem?-zeros (suc m) (suc i) n h = get_elem?-zeros m i n h

-- In every state that acquisitions and callbacks lead to, in any order, each counter is the number
-- of callbacks of its client that have not run, and no client is over the cap.
pub started_Reach-Inv :
    (per_client : ℤ) (clients : ℕ) {t : System}
    → Reach (record { pool = new_pool per_client clients; leases = [] }) t
    → Inv t
unfolding new_pool
started_Reach-Inv per_client clients r =
    Reach-Inv
      (record {
        exact = λ i n h. get_elem?-zeros clients i n h;
        capped = λ i n h. omega (arith, get_elem?-zeros clients i n h);
      })
      r
