-- ===== src/Cache/Laws.antt =====
-- internal/store/cache.go: the list of entries under `removeElement` and its like.
use thunder_go.Prelude.{
  ℕ, ◌+◌, ◌≤◌, ◌≡◌, refl, inl, inr, none, some, List, [], ◌∷◌, arith, length, ltb, if◌then◌else◌,
  Bool-cases,
}
use thunder_go.Prelude.Text.{Text, text_eq}
use thunder_go.Prelude.Text.Laws.{text_eq_iff}
use thunder_go.Cache.{touch, sweep_entries, Entry, Cache, find, remove_element}

module _ {ℓ} {V : Type ℓ} where
  abbrev pub Absent : Text → List (Entry V) → Type ℓ
  Absent k es = find k es ≡ none

  -- The map has one list element for a key.
  abbrev pub Distinct : List (Entry V) → Type ℓ
  Distinct [] = Unit
  Distinct (e ∷ es) = Absent e.key es × Distinct es

  pub record IsValid (c : Cache V) : Type ℓ where
    pub distinct : Distinct c.ll
    pub bounded : length c.ll ≤ c.max_size

  pub find-remove_element :
      (k j : Text) (es : List (Entry V))
      → Distinct es
      → find j (remove_element k es) ≡ (if text_eq k j then none else find j es)
  unfolding find remove_element
  find-remove_element k j [] d = ground arith
  find-remove_element k j (e ∷ es) d = ground (
    arith,
    find-remove_element k j es d.1,
    text_eq_iff e.key k,
    text_eq_iff e.key j,
    text_eq_iff k j,
  )

  pub Absent-remove_element :
      (k j : Text) (es : List (Entry V)) → Absent j es → Absent j (remove_element k es)
  unfolding find remove_element
  Absent-remove_element k j [] h = refl
  Absent-remove_element k j (e ∷ es) h = ground (arith, Absent-remove_element k j es)

  pub Distinct-remove_element :
      (k : Text) (es : List (Entry V)) → Distinct es → Distinct (remove_element k es)
  unfolding remove_element
  Distinct-remove_element k [] d = tt
  Distinct-remove_element k (e ∷ es) d = elim (Bool-cases (text_eq e.key k)) [
    | inl hit ↦ rw hit d.1
    | inr miss ↦ rw miss (Absent-remove_element k e.key es d.0, Distinct-remove_element k es d.1)
  ]

  pub length-remove_element :
      (k : Text) (es : List (Entry V)) → length (remove_element k es) ≤ length es
  unfolding remove_element
  length-remove_element k [] = omega arith
  length-remove_element k (e ∷ es) = ground (arith, length-remove_element k es)

  -- An element that is there is removed.
  pub length-remove_found :
      (k : Text) (es : List (Entry V)) (e : Entry V)
      → find k es ≡ some e
      → length (remove_element k es) + 1 ≡ length es
  unfolding find remove_element
  length-remove_found k [] e h = cc
  length-remove_found k (d ∷ es) e h = ground (arith, length-remove_found k es e)

  pub Absent-touch :
      (k j : Text) (now : ℕ) (es : List (Entry V)) → Absent j es → Absent j (touch k now es)
  unfolding find touch
  Absent-touch k j now [] h = refl
  Absent-touch k j now (e ∷ es) h = ground (arith, Absent-touch k j now es)

  pub Distinct-touch :
      (k : Text) (now : ℕ) (es : List (Entry V)) → Distinct es → Distinct (touch k now es)
  unfolding touch
  Distinct-touch k now [] d = tt
  Distinct-touch k now (e ∷ es) d = elim (Bool-cases (text_eq e.key k)) [
    | inl hit ↦ rw hit d
    | inr miss ↦ rw miss (Absent-touch k e.key now es d.0, Distinct-touch k now es d.1)
  ]

  pub length-touch :
      (k : Text) (now : ℕ) (es : List (Entry V)) → length (touch k now es) ≡ length es
  unfolding touch
  length-touch k now [] = refl
  length-touch k now (e ∷ es) = ground (arith, length-touch k now es)

  pub Absent-sweep :
      (j : Text) (now : ℕ) (es : List (Entry V)) → Absent j es → Absent j (sweep_entries now es)
  unfolding find sweep_entries
  Absent-sweep j now [] h = refl
  Absent-sweep j now (e ∷ es) h = ground (arith, Absent-sweep j now es)

  pub Distinct-sweep :
      (now : ℕ) (es : List (Entry V)) → Distinct es → Distinct (sweep_entries now es)
  unfolding sweep_entries
  Distinct-sweep now [] d = tt
  Distinct-sweep now (e ∷ es) d = elim (Bool-cases (ltb e.expires now)) [
    | inl old ↦ rw old (Distinct-sweep now es d.1)
    | inr live ↦ rw live (Absent-sweep e.key now es d.0, Distinct-sweep now es d.1)
  ]

  pub length-sweep : (now : ℕ) (es : List (Entry V)) → length (sweep_entries now es) ≤ length es
  unfolding sweep_entries
  length-sweep now [] = omega arith
  length-sweep now (e ∷ es) = ground (arith, length-sweep now es)
