-- ===== src/Cache/Setting.antt =====
-- internal/store/cache.go: well-formedness under the operations.
use thunder_go.Prelude.{
  ℕ, suc, ◌≤◌, ◌≡◌, refl, inl, inr, Option, none, some, ◌∷◌, arith, length, ltb, ltb-false→le,
  Bool-cases,
}
use thunder_go.Prelude.Text.{Text}
use thunder_go.Prelude.Text.Laws.{text_eq_iff}
use thunder_go.Cache.{
  Entry, Cache, max_int64, find, remove_element, get, get_found, set_found, entry_of, set_entry,
  invalidate, sweep,
}
use thunder_go.Cache.Laws.{
  Distinct, IsValid, Distinct-remove_element, length-remove_element, length-remove_found,
  find-remove_element, Distinct-touch, length-touch, Distinct-sweep, length-sweep,
}
use thunder_go.Cache.Eviction.{evict_back-IsOldest}

module _ {ℓ} {V : Type ℓ} where
  pub Distinct-front :
      (now : ℕ) (k : Text) (v : V) (c : Cache V)
      → Distinct c.ll
      → Distinct (entry_of now k v c ∷ remove_element k c.ll)
  Distinct-front now k v c d = (
    ground (arith, find-remove_element k k c.ll d, text_eq_iff k k),
    Distinct-remove_element k c.ll d,
  )

  set_found-IsValid :
      (now : ℕ) (k : Text) (v : V) (c : Cache V) (o : Option (Entry V))
      → find k c.ll ≡ o
      → now ≤ max_int64
      → IsValid c
      → IsValid (set_found now k v c o)
  unfolding set_found
  set_found-IsValid now k v c (some e) f h valid = record {
    distinct = Distinct-front now k v c valid.distinct;
    bounded = omega (arith, length-remove_found k c.ll e f, valid.bounded);
  }
  set_found-IsValid now k v c none f h valid =
      elim (Bool-cases (ltb c.max_size (suc (length c.ll)))) [
        | inl over ↦
            let (x, p, o) = evict_back-IsOldest (entry_of now k v c) c.ll (f, valid.distinct) h in
            rw (over, p)
              (record {
                distinct = Distinct-remove_element x.key _ (f, valid.distinct);
                bounded = omega (arith, length-remove_found x.key _ x o.there, valid.bounded);
              })
        | inr fits ↦
            rw fits (record { distinct = (f, valid.distinct); bounded = ltb-false→le _ _ fits })
      ]

  -- `set`, at a time that an int64 holds, keeps one entry for a key and the number of entries within
  -- the size that `newCache` was given.
  pub set_entry-IsValid :
      (now : ℕ) (k : Text) (v : V) (c : Cache V)
      → now ≤ max_int64
      → IsValid c
      → IsValid (set_entry now k v c)
  unfolding set_entry
  set_entry-IsValid now k v c h valid = set_found-IsValid now k v c (find k c.ll) refl h valid

  pub get-Distinct :
      (now : ℕ) (k : Text) (c : Cache V) → Distinct c.ll → Distinct (get now k c).1.ll
  unfolding get
  get-Distinct now k c d = go (find k c.ll)
    where
      go : (o : Option (Entry V)) → Distinct (get_found now k c o).1.ll
      go none = d
      go (some e) = elim (Bool-cases (ltb e.expires now)) [
        | inl old ↦ rw old (Distinct-remove_element k c.ll d)
        | inr fresh ↦ rw fresh (Distinct-touch k now c.ll d)
      ]

  pub get-IsValid : (now : ℕ) (k : Text) (c : Cache V) → IsValid c → IsValid (get now k c).1
  unfolding get
  get-IsValid now k c valid = go (find k c.ll)
    where
      go : (o : Option (Entry V)) → IsValid (get_found now k c o).1
      go none = valid
      go (some e) = elim (Bool-cases (ltb e.expires now)) [
        | inl old ↦ rw old (record {
          distinct = Distinct-remove_element k c.ll valid.distinct;
          bounded = omega (arith, length-remove_element k c.ll, valid.bounded);
        })
        | inr fresh ↦ rw fresh (record {
          distinct = Distinct-touch k now c.ll valid.distinct;
          bounded = omega (arith, length-touch k now c.ll, valid.bounded);
        })
      ]

  pub invalidate-IsValid : (k : Text) (c : Cache V) → IsValid c → IsValid (invalidate k c)
  unfolding invalidate
  invalidate-IsValid k c valid = record {
    distinct = Distinct-remove_element k c.ll valid.distinct;
    bounded = omega (arith, length-remove_element k c.ll, valid.bounded);
  }

  pub sweep-IsValid : (now : ℕ) (c : Cache V) → IsValid c → IsValid (sweep now c)
  unfolding sweep
  sweep-IsValid now c valid = record {
    distinct = Distinct-sweep now c.ll valid.distinct;
    bounded = omega (arith, length-sweep now c.ll, valid.bounded);
  }
