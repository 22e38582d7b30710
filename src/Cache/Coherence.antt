-- ===== src/Cache/Coherence.antt =====
-- internal/store/cache.go: a cache in front of a store, whose values are right in a sense `P` that
-- the store gives.
use thunder_go.Prelude.Text.Laws.{text_eq_iff}
use thunder_go.Prelude.{
  ℕ, suc, ◌≡◌, refl, sym, ◌∙◌, subst, inl, inr, false, Option, none, some, List, ◌∷◌, arith, length,
  ltb, if◌then◌else◌, Bool-cases,
}
use thunder_go.Prelude.Text.{Text}
use thunder_go.Cache.{
  oldest, entry_of, set_found, remove_element, remove_oldest, text_eq, evict_back, set_entry,
  invalidate, Entry, find, Cache, get,
}
use thunder_go.Cache.Setting.{Distinct-front, get-Distinct}
use thunder_go.Cache.Laws.{Distinct-remove_element, Distinct}
use thunder_go.Cache.Peek.{peek-get, peek-remove_element, peek, live, value_if_live, get-peek}

module _ {ℓ κ} {V : Type ℓ} where
  pub record IsCoherent (P : Text → V → Type κ) (c : Cache V) : Type (ℓ ⊔ κ) where
    pub distinct : Distinct c.ll
    pub right : (j : Text) (v : V) (x : ℕ) → peek j c.ll ≡ some (v, x) → P j v

module _ {ℓ κ} {V : Type ℓ} (P : Text → V → Type κ) where
  live-some :
      (now : ℕ) (o : Option (V × ℕ)) (v : V) (x : ℕ) → live now o ≡ some (v, x) → o ≡ some (v, x)
  live-some now none v x h = cc
  live-some now (some (w, y)) v x h = ground arith

  value_some :
      (now : ℕ) (o : Option (V × ℕ)) (v : V)
      → value_if_live now o ≡ some v
      → (x : ℕ) × (o ≡ some (v, x))
  value_some now none v h = cc
  value_some now (some (w, y)) v h = (y, ground arith)

  -- What `get` returns is right.
  pub get_sound :
      (now : ℕ) (k : Text) (c : Cache V) (v : V) → IsCoherent P c → (get now k c).0 ≡ some v → P k v
  get_sound now k c v h e =
      let (x, p) = value_some now (peek k c.ll) v (sym (get-peek now k c) ∙ e) in h.right k v x p

  peek_cons :
      (j : Text) (e : Entry V) (es : List (Entry V))
      → peek j (e ∷ es) ≡ (if text_eq e.key j then some (e.value, e.expires) else peek j es)
  unfolding peek find
  peek_cons j e es = ground arith

  -- A list whose values are all right.
  Right : List (Entry V) → Type (ℓ ⊔ κ)
  Right es = (j : Text) (v : V) (x : ℕ) → peek j es ≡ some (v, x) → P j v

  Right-remove_element :
      (k : Text) (es : List (Entry V)) → Distinct es → Right es → Right (remove_element k es)
  unfolding Right
  Right-remove_element k es d r j v x h = r j v x (ground (arith, peek-remove_element k j es d))

  Right-cons : (e : Entry V) (es : List (Entry V)) → P e.key e.value → Right es → Right (e ∷ es)
  unfolding Right
  Right-cons e es p r j v x h = elim (Bool-cases (text_eq e.key j)) [
    | inl hit ↦
        let same : e.key ≡ j = (text_eq_iff e.key j).0 hit in
        let value : e.value ≡ v = ground (arith, peek_cons j e es) in
        subst (λ y. P j y) value (subst (λ y. P y e.value) same p)
    | inr miss ↦ r j v x (ground (arith, peek_cons j e es))
  ]

  Right-evict_back :
      (es : List (Entry V))
      → Distinct es
      → Right es
      → Distinct (evict_back es) × Right (evict_back es)
  unfolding evict_back
  Right-evict_back es d r = go (oldest es)
    where
      go : (o : Option Text) → Distinct (remove_oldest o es) × Right (remove_oldest o es)
      go none = (d, r)
      go (some k) = (Distinct-remove_element k es d, Right-remove_element k es d r)

  -- `get` keeps it, whatever it drops.
  pub get-IsCoherent :
      (now : ℕ) (k : Text) (c : Cache V) → IsCoherent P c → IsCoherent P (get now k c).1
  get-IsCoherent now k c h = record {
    distinct = get-Distinct now k c h.distinct;
    right = λ j v x e. h.right j v x (get_some j v x (sym (peek-get now k j c h.distinct) ∙ e));
  }
    where
      get_some :
          (j : Text) (v : V) (x : ℕ)
          → (if text_eq k j then live now (peek j c.ll) else peek j c.ll) ≡ some (v, x)
          → peek j c.ll ≡ some (v, x)
      get_some j v x e = elim (Bool-cases (text_eq k j)) [
        | inl hit ↦ live-some now (peek j c.ll) v x (rw hit at e)
        | inr miss ↦ rw miss at e
      ]

  -- `set` keeps it, if the new value is right for its key.
  pub set_entry-IsCoherent :
      (now : ℕ) (k : Text) (v : V) (c : Cache V)
      → P k v
      → IsCoherent P c
      → IsCoherent P (set_entry now k v c)
  unfolding set_entry set_found Right
  set_entry-IsCoherent now k v c p h = go (find k c.ll) refl
    where
      go : (o : Option (Entry V)) → find k c.ll ≡ o → IsCoherent P (set_found now k v c o)
      go (some e) f = record {
        distinct = Distinct-front now k v c h.distinct;
        right =
            Right-cons (entry_of now k v c) _ p (Right-remove_element k c.ll h.distinct h.right);
      }
      go none f =
          let r = Right-cons (entry_of now k v c) c.ll p h.right in
          elim (Bool-cases (ltb c.max_size (suc (length c.ll)))) [
            | inl over ↦
                let (d', r') = Right-evict_back (entry_of now k v c ∷ c.ll) (f, h.distinct) r in
                rw over (record { distinct = d'; right = r' })
            | inr fits ↦ rw fits (record { distinct = (f, h.distinct); right = r })
          ]

module _ {ℓ κ} {V : Type ℓ} (P Q : Text → V → Type κ) where
  -- After `invalidate` the values need be right, in a new sense, only for the other keys.
  pub invalidate-IsCoherent :
      (k : Text) (c : Cache V)
      → ((j : Text) (v : V) → text_eq k j ≡ false → P j v → Q j v)
      → IsCoherent P c
      → IsCoherent Q (invalidate k c)
  unfolding invalidate
  invalidate-IsCoherent k c imp h = record {
    distinct = Distinct-remove_element k c.ll h.distinct;
    right = λ j v x e. elim (Bool-cases (text_eq k j)) [
      | inl hit ↦ absurd (ground (arith, peek-remove_element k j c.ll h.distinct))
      | inr miss ↦
          imp j v miss (h.right j v x (ground (arith, peek-remove_element k j c.ll h.distinct)))
    ];
  }

  -- A weaker sense holds too.
  pub IsCoherent-weaken :
      (c : Cache V) → ((j : Text) (v : V) → P j v → Q j v) → IsCoherent P c → IsCoherent Q c
  IsCoherent-weaken c imp h = record {
    distinct = h.distinct;
    right = λ j v x e. imp j v (h.right j v x e);
  }
