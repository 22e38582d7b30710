-- ===== src/Cache.antt =====
-- internal/store/cache.go: the bounded TTL cache with lazy LRU eviction. The list `ll` holds the
-- entries and the map `entries` points into it, so the list alone is the state: front first. Times
-- are numbers of nanoseconds; a call, which holds the lock while it looks or writes, is one step.
pub mod Laws
pub mod Peek
pub mod Eviction
pub mod Setting
pub mod Coherence
pub mod Reading
use thunder_go.Prelude.{
  ℕ, zero, suc, ◌+◌, ◌-◌, ◌*◌, ◌/◌, ◌%◌, ◌^◌, ◌≤◌, ◌<◌, min, max, ◌≡◌, refl, sym, ap, ◌∙◌, subst,
  ◌≢◌, ◌↔◌, ◌⊎◌, inl, inr, Bool, true, false, not, ◌&&◌, ◌||◌, Option, none, some, List, [], ◌∷◌,
  ◌++◌, map, append-nil, append_assoc, arith, length, get_elem?, set, take, drop, length-append,
  length-take, length-drop, All, All-append, All-map, ltb, leb, ◌==◌, if◌then◌else◌, tests, leb→le,
  le→leb, leb-false→lt, ltb→lt, lt→ltb, ltb-false→le, Bool-cases, Option-cases,
}
use thunder_go.Prelude.Text.{Text, text_eq}

pub record Entry {ℓ} (V : Type ℓ) : Type ℓ where
  pub key : Text
  pub value : V
  pub expires : ℕ
  pub last_access : ℕ

pub record Cache {ℓ} (V : Type ℓ) : Type ℓ where
  pub ll : List (Entry V)
  pub max_size : ℕ
  pub ttl : ℕ

unfoldable pub new_cache {ℓ} : {V : Type ℓ} → ℕ → ℕ → Cache V
new_cache max_size ttl = record { ll = []; max_size = max_size; ttl = ttl }

-- math.MaxInt64
abbrev pub max_int64 : ℕ
max_int64 = 9223372036854775807

module _ {ℓ} {V : Type ℓ} where
  -- c.entries[key]
  unfoldable pub find : Text → List (Entry V) → Option (Entry V)
  find k [] = none
  find k (e ∷ es) = if text_eq e.key k then some e else find k es

  -- `removeElement` of the entry with that key.
  unfoldable pub remove_element : Text → List (Entry V) → List (Entry V)
  remove_element k [] = []
  remove_element k (e ∷ es) = if text_eq e.key k then es else e ∷ remove_element k es

  -- `lastAccess.Store` on the entry with that key.
  unfoldable pub touch : Text → ℕ → List (Entry V) → List (Entry V)
  touch k now [] = []
  touch k now (e ∷ es) =
      if text_eq e.key k then record e { last_access = now } ∷ es else e ∷ touch k now es

  abbrev expired : ℕ → Entry V → Bool
  expired now e = ltb e.expires now

  get_found : ℕ → Text → Cache V → Option (Entry V) → Option V × Cache V
  get_found now k c none = (none, c)
  get_found now k c (some e) =
      if expired now e
      then (none, record c { ll = remove_element k c.ll })
      else (some e.value, record c { ll = touch k now c.ll })

  unfoldable pub get : ℕ → Text → Cache V → Option V × Cache V
  unfolding get_found
  get now k c = get_found now k c (find k c.ll)

  -- The loop of `evictBack`, front to back: the last of the entries with the least access time.
  oldest_from : Option Text → ℕ → List (Entry V) → Option Text
  oldest_from best time [] = best
  oldest_from best time (e ∷ es) =
      oldest_from (if leb e.last_access time then some e.key else best)
        (if leb e.last_access time then e.last_access else time) es

  pub oldest : List (Entry V) → Option Text
  unfolding oldest_from
  oldest es = oldest_from none max_int64 es

  remove_oldest : Option Text → List (Entry V) → List (Entry V)
  remove_oldest none es = es
  remove_oldest (some k) es = remove_element k es

  unfoldable pub evict_back : List (Entry V) → List (Entry V)
  unfolding oldest remove_oldest
  evict_back es = remove_oldest (oldest es) es

  abbrev entry_of : ℕ → Text → V → Cache V → Entry V
  entry_of now k v c = record { key = k; value = v; expires = now + c.ttl; last_access = now }

  set_found : ℕ → Text → V → Cache V → Option (Entry V) → Cache V
  set_found now k v c (some e) = record c { ll = entry_of now k v c ∷ remove_element k c.ll }
  set_found now k v c none =
      let es = entry_of now k v c ∷ c.ll in
      record c { ll = if ltb c.max_size (length es) then evict_back es else es }

  -- An update moves the entry to the front; an insertion may put one entry out.
  unfoldable pub set_entry : ℕ → Text → V → Cache V → Cache V
  unfolding set_found
  set_entry now k v c = set_found now k v c (find k c.ll)

  unfoldable pub invalidate : Text → Cache V → Cache V
  invalidate k c = record c { ll = remove_element k c.ll }

  unfoldable pub sweep_entries : ℕ → List (Entry V) → List (Entry V)
  sweep_entries now [] = []
  sweep_entries now (e ∷ es) =
      let rest = sweep_entries now es in if expired now e then rest else e ∷ rest

  unfoldable pub sweep : ℕ → Cache V → Cache V
  sweep now c = record c { ll = sweep_entries now c.ll }
