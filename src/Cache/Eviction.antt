-- ===== src/Cache/Eviction.antt =====
-- internal/store/cache.go: the entry that `evictBack` takes out.
use thunder_go.Prelude.{
  ℕ, ◌≤◌, ◌<◌, ◌≡◌, refl, ap, inl, inr, Option, none, some, List, [], ◌∷◌, arith, All, leb, leb→le,
  le→leb, leb-false→lt, Bool-cases,
}
use thunder_go.Prelude.Text.{Text}
use thunder_go.Prelude.Text.Laws.{text_eq_iff}
use thunder_go.Cache.{
  remove_oldest, remove_element, evict_back, Entry, max_int64, find, oldest_from, oldest,
}
use thunder_go.Cache.Laws.{Absent, Distinct}

module _ {ℓ} {V : Type ℓ} where
  abbrev pub IdleSince : ℕ → List (Entry V) → Type 0
  IdleSince t = All (λ y. t ≤ y.last_access)

  -- `x` is an entry of the list, and none has an earlier access time.
  pub record IsOldest (x : Entry V) (es : List (Entry V)) : Type ℓ where
    pub there : find x.key es ≡ some x
    pub least : IdleSince x.last_access es

  data Scan (best : Option Text) (time : ℕ) (es : List (Entry V)) (r : Option Text) : Type ℓ where
    kept : r ≡ best → All (λ y. time < y.last_access) es → Scan best time es r
    found :
        (x : Entry V) → r ≡ some x.key → x.last_access ≤ time → IsOldest x es → Scan best time es r

  find_head : (e : Entry V) (es : List (Entry V)) → find e.key (e ∷ es) ≡ some e
  unfolding find
  find_head e es = ground (arith, text_eq_iff e.key e.key)

  find_tail :
      (e x : Entry V) (es : List (Entry V))
      → Absent e.key es
      → find x.key es ≡ some x
      → find x.key (e ∷ es) ≡ some x
  unfolding find
  find_tail e x es a h = ground (arith, text_eq_iff e.key x.key)

  Idle_mono : (s t : ℕ) (es : List (Entry V)) → s ≤ t → IdleSince t es → IdleSince s es
  Idle_mono s t [] h i = tt
  Idle_mono s t (e ∷ es) h i = (omega arith, Idle_mono s t es h i.1)

  Idle_of_lt : (t : ℕ) (es : List (Entry V)) → All (λ y. t < y.last_access) es → IdleSince t es
  Idle_of_lt t [] i = tt
  Idle_of_lt t (e ∷ es) i = (omega arith, Idle_of_lt t es i.1)

  taken :
      {best : Option Text} {time : ℕ} {e : Entry V} {es : List (Entry V)} {r : Option Text}
      → e.last_access ≤ time
      → Absent e.key es
      → Scan (some e.key) e.last_access es r
      → Scan best time (e ∷ es) r
  taken {e} {es} h a (kept p later) =
      found e p h (record { there = find_head e es; least = (omega arith, Idle_of_lt _ es later) })
  taken {e} {es} h a (found x p le o) =
      found x p (omega arith) (record { there = find_tail e x es a o.there; least = (le, o.least) })

  passed :
      {best : Option Text} {time : ℕ} {e : Entry V} {es : List (Entry V)} {r : Option Text}
      → time < e.last_access
      → Absent e.key es
      → Scan best time es r
      → Scan best time (e ∷ es) r
  passed h a (kept p later) = kept p (h, later)
  passed {e} {es} h a (found x p le o) =
      found x p le (record { there = find_tail e x es a o.there; least = (omega arith, o.least) })

  oldest_from-Scan :
      (best : Option Text) (time : ℕ) (es : List (Entry V))
      → Distinct es
      → Scan best time es (oldest_from best time es)
  unfolding oldest_from
  oldest_from-Scan best time [] d = kept refl tt
  oldest_from-Scan best time (e ∷ es) d = elim (Bool-cases (leb e.last_access time)) [
    | inl le ↦
        rw le (taken (leb→le _ _ le) d.0 (oldest_from-Scan (some e.key) e.last_access es d.1))
    | inr gt' ↦ rw gt' (passed (leb-false→lt _ _ gt') d.0 (oldest_from-Scan best time es d.1))
  ]

  -- The scan of a list whose first access time an int64 holds finds an oldest entry. Where the
  -- first entry is not the youngest of all, that is another one.
  pub oldest-IsOldest :
      (e : Entry V) (es : List (Entry V))
      → Distinct (e ∷ es)
      → e.last_access ≤ max_int64
      → (x : Entry V) × (oldest (e ∷ es) ≡ some x.key) × IsOldest x (e ∷ es)
  unfolding oldest
  oldest-IsOldest e es d h = go (oldest_from-Scan none max_int64 (e ∷ es) d)
    where
      go :
          Scan none max_int64 (e ∷ es) (oldest_from none max_int64 (e ∷ es))
          → (x : Entry V) × (oldest (e ∷ es) ≡ some x.key) × IsOldest x (e ∷ es)
      go (kept p later) = absurd (omega (arith, later.0))
      go (found x p le o) = (x, p, o)

  pub oldest-tail :
      (e : Entry V) (es : List (Entry V)) (x : Entry V) (xs : List (Entry V))
      → es ≡ x ∷ xs
      → Distinct (e ∷ es)
      → e.last_access ≤ max_int64
      → x.last_access ≤ e.last_access
      → (y : Entry V) × (oldest (e ∷ es) ≡ some y.key) × (find y.key es ≡ some y)
  unfolding oldest oldest_from
  oldest-tail e es x xs p d h younger =
      rw (le→leb _ _ h) (go (oldest_from-Scan (some e.key) e.last_access es d.1))
    where
      go :
          {r : Option Text}
          → Scan (some e.key) e.last_access es r
          → (y : Entry V) × (r ≡ some y.key) × (find y.key es ≡ some y)
      go (kept q later) = absurd (omega (arith, (rw p at later).0))
      go (found y q le o) = (y, q, o.there)

  -- `evictBack` takes out one entry, which has been idle at least as long as every other.
  pub evict_back-IsOldest :
      (e : Entry V) (es : List (Entry V))
      → Distinct (e ∷ es)
      → e.last_access ≤ max_int64
      → (x : Entry V) × (evict_back (e ∷ es) ≡ remove_element x.key (e ∷ es)) × IsOldest x (e ∷ es)
  unfolding evict_back
  evict_back-IsOldest e es d h =
      let (x, p, o) = oldest-IsOldest e es d h in (x, ap (λ q. remove_oldest q (e ∷ es)) p, o)
