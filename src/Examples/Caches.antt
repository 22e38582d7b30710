-- ===== src/Examples/Caches.antt =====
-- A cache of two flags, filled.
use thunder_go.Prelude.{◌≡◌, refl, Bool, true, false, some, [], ◌∷◌, arith}
use thunder_go.Cache.{Entry, Cache, get, set_entry, evict_back, remove_element, find}
use thunder_go.Cache.Laws.{Distinct, IsValid}
use thunder_go.Cache.Eviction.{IsOldest, evict_back-IsOldest}
use thunder_go.Cache.Reading.{get-set_entry}
use thunder_go.Cache.Setting.{set_entry-IsValid}
use thunder_go.Prelude.Text.{codes, text_eq}

abbrev first_entry : Entry Bool
first_entry = record { key = codes "1"; value = true; expires = 100; last_access = 5 }

abbrev second_entry : Entry Bool
second_entry = record { key = codes "2"; value = false; expires = 90; last_access = 3 }

abbrev full_cache : Cache Bool
full_cache = record { ll = first_entry ∷ second_entry ∷ []; max_size = 2; ttl = 60 }

full-Distinct : Distinct full_cache.ll
unfolding find text_eq
full-Distinct = (refl, (refl, tt))

full-IsValid : IsValid full_cache
full-IsValid = record { distinct = full-Distinct; bounded = omega arith }

get-set_entry_example :
    (get 70 (codes "3") (set_entry 10 (codes "3") true full_cache)).0 ≡ some true
get-set_entry_example =
    get-set_entry 10 70 (codes "3") true full_cache full-IsValid (omega arith) (omega arith)
      (omega arith, (omega arith, tt)) (omega arith)

evict_back-IsOldest_example :
    (x : Entry Bool) × (evict_back (first_entry ∷ second_entry ∷ [])
      ≡ remove_element x.key (first_entry ∷ second_entry ∷ []))
    × IsOldest x (first_entry ∷ second_entry ∷ [])
evict_back-IsOldest_example =
    evict_back-IsOldest first_entry (second_entry ∷ []) full-Distinct (omega arith)

set_entry-IsValid_example : IsValid (set_entry 10 (codes "3") true full_cache)
set_entry-IsValid_example =
    set_entry-IsValid 10 (codes "3") true full_cache (omega arith) full-IsValid
