-- ===== src/Cache/Reading.antt =====
-- internal/store/cache.go: a `get` after a `set`.
use thunder_go.Prelude.{
  ℕ, suc, ◌+◌, ◌≤◌, ◌<◌, ◌≡◌, refl, ap, ◌∙◌, inl, inr, false, Option, none, some, List, [], ◌∷◌,
  arith, length, All, ltb, tests, Bool-cases,
}
use thunder_go.Prelude.Text.{Text, text_eq}
use thunder_go.Prelude.Text.Laws.{text_eq_iff}
use thunder_go.Cache.{
  Entry, Cache, max_int64, find, get, remove_oldest, evict_back, set_found, entry_of, set_entry,
}
use thunder_go.Cache.Laws.{Absent, Distinct, IsValid}
use thunder_go.Cache.Peek.{peek, peek-remove_element, get-peek}
use thunder_go.Cache.Eviction.{oldest-tail}

module _ {ℓ} {V : Type ℓ} where
  -- No access lies in the future.
  abbrev pub Past : ℕ → Cache V → Type 0
  Past now c = All (λ y. y.last_access ≤ now) c.ll

  peek_head :
      (now : ℕ) (k : Text) (v : V) (c : Cache V) (es : List (Entry V))
      → peek k (entry_of now k v c ∷ es) ≡ some (v, now + c.ttl)
  unfolding peek find
  peek_head now k v c es = ground (arith, text_eq_iff k k)

  found_ne :
      (k : Text) (y : Entry V) (es : List (Entry V))
      → Absent k es
      → find y.key es ≡ some y
      → text_eq y.key k ≡ false
  found_ne k y es a f = ground (arith, text_eq_iff y.key k)

  peek_evicted :
      (now : ℕ) (k : Text) (v : V) (c : Cache V) (es : List (Entry V))
      → c.ll ≡ es
      → Absent k es
      → Distinct es
      → now ≤ max_int64
      → Past now c
      → 0 < length es
      → peek k (evict_back (entry_of now k v c ∷ es)) ≡ some (v, now + c.ttl)
  unfolding evict_back
  peek_evicted now k v c [] p a d h past some' = absurd (omega arith)
  peek_evicted now k v c (x ∷ xs) p a d h past some' =
      let (y, o, f) =
        oldest-tail (entry_of now k v c) (x ∷ xs) x xs refl (a, d) h (rw p at past).0 in
      ap (λ q. peek k (remove_oldest q (entry_of now k v c ∷ x ∷ xs))) o
      ∙ rw
          (
            peek-remove_element y.key k (entry_of now k v c ∷ x ∷ xs) (a, d),
            found_ne k y (x ∷ xs) a f,
          )
          (peek_head now k v c (x ∷ xs))

  peek-set_found :
      (now : ℕ) (k : Text) (v : V) (c : Cache V) (o : Option (Entry V))
      → find k c.ll ≡ o
      → IsValid c
      → 0 < c.max_size
      → now ≤ max_int64
      → Past now c
      → peek k (set_found now k v c o).ll ≡ some (v, now + c.ttl)
  unfolding set_found
  peek-set_found now k v c (some e) f valid pos' h past = peek_head now k v c _
  peek-set_found now k v c none f valid pos' h past =
      elim (Bool-cases (ltb c.max_size (suc (length c.ll)))) [
        | inl over ↦
            rw over (peek_evicted now k v c c.ll refl f valid.distinct h past (omega (tests, over)))
        | inr fits ↦ rw fits (peek_head now k v c c.ll)
      ]

  -- A `get` that comes next after a `set` of its key, with no other call in between, finds the value
  -- unless it has expired: the entry that makes room for it is always another one. The cache is
  -- well-formed and may hold one entry at least, the time of the `set` is an int64, and no access
  -- lies after it.
  pub get-set_entry :
      (now later : ℕ) (k : Text) (v : V) (c : Cache V)
      → IsValid c
      → 0 < c.max_size
      → now ≤ max_int64
      → Past now c
      → later ≤ now + c.ttl
      → (get later k (set_entry now k v c)).0 ≡ some v
  unfolding set_entry
  get-set_entry now later k v c valid pos' h past live' =
      rw
        (
          get-peek later k (set_found now k v c (find k c.ll)),
          peek-set_found now k v c (find k c.ll) refl valid pos' h past,
        )
        (ground arith)
