-- ===== src/Pool/Selection.antt =====
-- internal/pool/pool.go: the client that `AcquireBest` chooses.
use thunder_go.Prelude.{
  ℕ, ◌+◌, ◌≤◌, ◌<◌, ◌≡◌, refl, ap, ◌⊎◌, inl, inr, true, false, Option, none, some, List, [], ◌∷◌,
  ◌++◌, append-nil, append_assoc, arith, length, get_elem?, length-append, All, All-append, All-map,
  get_elem?-append, get_elem?-append_length, leb, tests, leb→le, leb-false→lt, Bool-cases,
}
use thunder_go.Pool.{Pool, Best, better, pick_from, position, pick, reserve, acquire_best, add_at}

-- The client at position `i` has `n` streams, fewer than the cap, and none has fewer.
pub record IsBest (cap : ℕ) (ns : List ℕ) (i n : ℕ) : Type 0 where
  pub there : get_elem? ns i ≡ some n
  pub under : n < cap
  pub least : All (λ m. n ≤ m) ns

-- What the scan knows of the clients behind it.
abbrev pub Summary : ℕ → List ℕ → Best → Type 0
Summary cap ns none = All (λ m. cap ≤ m) ns
Summary cap ns (some (i, n)) = IsBest cap ns i n

-- A client at the cap or no better than the best so far is passed over.
passed :
    (cap n : ℕ) (best : Best) (ns : List ℕ)
    → (leb cap n ≡ true) ⊎ (better n best ≡ false)
    → Summary cap ns best
    → Summary cap (ns ++ n ∷ []) best
unfolding better
passed cap n none ns (inl full) s = All-append _ ns (n ∷ []) s (leb→le _ _ full, tt)
passed cap n none ns (inr worse) s = absurd (ground arith)
passed cap n (some (i, b)) ns w s = record {
  there = get_elem?-append ns (n ∷ []) i b s.there;
  under = s.under;
  least = All-append _ ns (n ∷ []) s.least (ground (arith, w, s.under), tt);
}

taken :
    (cap n : ℕ) (best : Best) (ns : List ℕ)
    → leb cap n ≡ false
    → better n best ≡ true
    → Summary cap ns best
    → IsBest cap (ns ++ n ∷ []) (length ns) n
unfolding better
taken cap n none ns under' b s = record {
  there = get_elem?-append_length ns [] n;
  under = leb-false→lt _ _ under';
  least =
      All-append _ ns (n ∷ [])
        (All-map (λ m. cap ≤ m) (λ m. n ≤ m) (λ m h. omega (tests, under')) ns s) (omega arith, tt);
}
taken cap n (some (i, m)) ns under' b s = record {
  there = get_elem?-append_length ns [] n;
  under = leb-false→lt _ _ under';
  least =
      All-append _ ns (n ∷ [])
        (All-map (λ k. m ≤ k) (λ k. n ≤ k) (λ k h. omega (tests, b)) ns s.least) (omega arith, tt);
}

length-snoc : (ns : List ℕ) (n i : ℕ) → length ns ≡ i → length (ns ++ n ∷ []) ≡ i + 1
length-snoc ns n i e = omega (arith, length-append ns (n ∷ []))

pick_from-Summary :
    (cap i : ℕ) (best : Best) (seen ns : List ℕ)
    → length seen ≡ i
    → Summary cap seen best
    → Summary cap (seen ++ ns) (pick_from cap i best ns)
unfolding pick_from
pick_from-Summary cap i best seen [] e s = rw append-nil s
pick_from-Summary cap i best seen (n ∷ ns) e s =
    let next =
      λ (b : Best). pick_from-Summary cap (i + 1) b (seen ++ n ∷ []) ns (length-snoc seen n i e) in
    let join = append_assoc seen (n ∷ []) ns in
    elim (Bool-cases (leb cap n)) [
      | inl full ↦ rw full (rw join at (next best (passed cap n best seen (inl full) s)))
      | inr free ↦ elim (Bool-cases (better n best)) [
        | inl b ↦
            rw (free, b)
              (rw join at (next (some (i, n)) (rw (← e) (taken cap n best seen free b s))))
        | inr w ↦ rw (free, w) (rw join at (next best (passed cap n best seen (inr w) s)))
      ]
    ]

abbrev pub Chosen : Pool → Best → Option ℕ × Pool → Type 0
Chosen p none r = (r ≡ (none, p)) × All (λ m. p.max_concurrent ≤ m) p.inflight
Chosen p (some (i, n)) r =
    (r ≡ (some i, record p { inflight = add_at i p.inflight }))
    × IsBest p.max_concurrent p.inflight i n

-- AcquireBest reserves a stream on a client that is under the cap and has as few streams as any,
-- counting it on that client alone; it hands out no client exactly when all are at the cap, and
-- then changes nothing.
pub acquire_best-Chosen : (p : Pool) → (b : Best) × Chosen p b (acquire_best p)
unfolding acquire_best pick
acquire_best-Chosen p = go (pick_from p.max_concurrent 0 none p.inflight) refl
  where
    go :
        (b : Best)
        → pick_from p.max_concurrent 0 none p.inflight ≡ b
        → (b : Best) × Chosen p b
            (reserve p (position (pick_from p.max_concurrent 0 none p.inflight)))
    go none e = (
      none,
      (
        ap (λ o. reserve p (position o)) e,
        rw e at (pick_from-Summary p.max_concurrent 0 none [] p.inflight refl tt),
      ),
    )
    go (some (i, n)) e = (
      some (i, n),
      (
        ap (λ o. reserve p (position o)) e,
        rw e at (pick_from-Summary p.max_concurrent 0 none [] p.inflight refl tt),
      ),
    )
