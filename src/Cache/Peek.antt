-- ===== src/Cache/Peek.antt =====
-- internal/store/cache.go: what a later `get` sees of each operation.
use thunder_go.Prelude.{
  ℕ, ◌≡◌, refl, ap, Option, none, some, List, [], ◌∷◌, arith, ltb, if◌then◌else◌,
}
use thunder_go.Prelude.Text.{Text, text_eq}
use thunder_go.Prelude.Text.Laws.{text_eq_iff}
use thunder_go.Cache.{Entry, Cache, find, remove_element, touch, get, get_found, sweep_entries}
use thunder_go.Cache.Laws.{Distinct, find-remove_element, Absent-sweep}

module _ {ℓ} {V : Type ℓ} where
  -- What the cache holds for a key: the value, and when it expires.
  abbrev pub stored : Option (Entry V) → Option (V × ℕ)
  stored none = none
  stored (some e) = some (e.value, e.expires)

  unfoldable pub peek : Text → List (Entry V) → Option (V × ℕ)
  peek j es = stored (find j es)

  pub peek-remove_element :
      (k j : Text) (es : List (Entry V))
      → Distinct es
      → peek j (remove_element k es) ≡ (if text_eq k j then none else peek j es)
  unfolding peek
  peek-remove_element k j es d = ground (arith, find-remove_element k j es d)

  peek-touch : (k j : Text) (now : ℕ) (es : List (Entry V)) → peek j (touch k now es) ≡ peek j es
  unfolding peek find touch
  peek-touch k j now [] = refl
  peek-touch k j now (e ∷ es) = ground (arith, peek-touch k j now es)

  abbrev pub live : ℕ → Option (V × ℕ) → Option (V × ℕ)
  live now none = none
  live now (some (v, x)) = if ltb x now then none else some (v, x)

  pub peek-sweep :
      (j : Text) (now : ℕ) (es : List (Entry V))
      → Distinct es
      → peek j (sweep_entries now es) ≡ live now (peek j es)
  unfolding peek find sweep_entries
  peek-sweep j now [] d = refl
  peek-sweep j now (e ∷ es) d =
      ground (arith, peek-sweep j now es d.1, text_eq_iff e.key j, Absent-sweep e.key now es d.0)

  abbrev pub value_if_live : ℕ → Option (V × ℕ) → Option V
  value_if_live now none = none
  value_if_live now (some (v, x)) = if ltb x now then none else some v

  -- `get` returns what the cache holds for the key, unless it has expired.
  pub get-peek :
      (now : ℕ) (k : Text) (c : Cache V) → (get now k c).0 ≡ value_if_live now (peek k c.ll)
  unfolding get peek
  get-peek now k c = ground arith

  -- It changes nothing but that it drops the entry of the key, if that has expired.
  pub peek-get :
      (now : ℕ) (k j : Text) (c : Cache V)
      → Distinct c.ll
      → peek j (get now k c).1.ll ≡ (if text_eq k j then live now (peek j c.ll) else peek j c.ll)
  unfolding get peek
  peek-get now k j c d = go (find k c.ll) refl
    where
      go :
          (o : Option (Entry V))
          → find k c.ll ≡ o
          → peek j (get_found now k c o).1.ll
            ≡ (if text_eq k j then live now (peek j c.ll) else peek j c.ll)
      go none e = ground (arith, text_eq_iff k j, ap stored e)
      go (some x) e = ground (
        arith,
        text_eq_iff k j,
        peek-remove_element k j c.ll d,
        peek-touch k j now c.ll,
        ap stored e,
      )
