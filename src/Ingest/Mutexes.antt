-- ===== src/Ingest/Mutexes.antt =====
-- internal/ingest/ingest.go: the mutexes of the file keys, `fileMutex` and `CleanupDedupMu`. A mutex
-- is a number; which key a range over the map meets first is a parameter.
use thunder_go.Prelude.{
  ℕ, zero, suc, ◌+◌, ◌≤◌, ◌<◌, ◌≡◌, refl, inl, inr, Bool, true, false, Option, none, some, List, [],
  ◌∷◌, arith, length, leb, if◌then◌else◌, leb→le, leb-false→lt, Bool-cases,
}
use thunder_go.Prelude.Text.{Text, text_eq}

record Entry : Type 0 where
  key : Text
  mutex : ℕ
  held : Bool

-- The map, and the number of the next mutex.
record Mutexes : Type 0 where
  dedup_mu : List Entry
  next : ℕ

abbrev max_dedup_entries : ℕ
max_dedup_entries = 10000

find : Text → List Entry → Option Entry
find key [] = none
find key (e ∷ es) = if text_eq e.key key then some e else find key es

remove_at : ℕ → List Entry → List Entry
remove_at i [] = []
remove_at zero (e ∷ es) = es
remove_at (suc i) (e ∷ es) = e ∷ remove_at i es

file_found : ℕ → Text → Mutexes → Option Entry → ℕ × Mutexes
unfolding remove_at
file_found first key d (some e) = (e.mutex, d)
file_found first key d none =
    let kept =
      if leb max_dedup_entries (length d.dedup_mu)
      then remove_at first d.dedup_mu
      else d.dedup_mu in
    (
      d.next,
      record {
        dedup_mu = record { key = key; mutex = d.next; held = false } ∷ kept;
        next = suc d.next;
      },
    )

file_mutex : ℕ → Text → Mutexes → ℕ × Mutexes
unfolding file_found find
file_mutex first key d = file_found first key d (find key d.dedup_mu)

held_only : List Entry → List Entry
held_only [] = []
held_only (e ∷ es) = let rest = held_only es in if e.held then e ∷ rest else rest

-- A mutex that TryLock can take goes.
cleanup_dedup_mu : Mutexes → Mutexes
unfolding held_only
cleanup_dedup_mu d = record d { dedup_mu = held_only d.dedup_mu }

length-remove_at :
    (i : ℕ) (es : List Entry) → i < length es → length (remove_at i es) + 1 ≡ length es
unfolding remove_at
length-remove_at i [] h = absurd (omega (arith, h))
length-remove_at zero (e ∷ es) h = omega arith
length-remove_at (suc i) (e ∷ es) h = omega (arith, length-remove_at i es (omega (arith, h)))

length-held_only : (es : List Entry) → length (held_only es) ≤ length es
unfolding held_only
length-held_only [] = omega arith
length-held_only (e ∷ es) = ground (arith, length-held_only es)

find-held_only :
    (key : Text) (e : Entry) (es : List Entry)
    → find key es ≡ some e
    → e.held ≡ true
    → find key (held_only es) ≡ some e
unfolding find held_only
find-held_only key e [] h k = h
find-held_only key e (x ∷ es) h k = ground (arith, find-held_only key e es)

-- The map keeps within its limit.
abbrev IsBounded : Mutexes → Type 0
IsBounded d = length d.dedup_mu ≤ max_dedup_entries

file_found-IsBounded :
    (first : ℕ) (key : Text) (d : Mutexes) (o : Option Entry)
    → IsBounded d
    → first < max_dedup_entries
    → IsBounded (file_found first key d o).1
unfolding file_found
file_found-IsBounded first key d (some e) h k = h
file_found-IsBounded first key d none h k =
    elim (Bool-cases (leb max_dedup_entries (length d.dedup_mu))) [
      | inl e ↦ rw e (
          omega (
            arith,
            length-remove_at first d.dedup_mu,
            leb→le max_dedup_entries (length d.dedup_mu) e,
            h,
            k,
          ))
      | inr e ↦ rw e (omega (arith, leb-false→lt max_dedup_entries (length d.dedup_mu) e))
    ]

file_mutex-IsBounded :
    (first : ℕ) (key : Text) (d : Mutexes)
    → IsBounded d
    → first < max_dedup_entries
    → IsBounded (file_mutex first key d).1
unfolding file_mutex
file_mutex-IsBounded first key d = file_found-IsBounded first key d (find key d.dedup_mu)

-- The map of mutexes has at most 10000 entries after each call, and a mutex that is held when
-- `CleanupDedupMu` runs is the one that `fileMutex` returns for its key after it.
cleanup_dedup_mu-file_mutex :
    (first : ℕ) (key : Text) (d : Mutexes)
    → IsBounded d
    → first < max_dedup_entries
    → IsBounded (file_mutex first key d).1
      × (IsBounded (cleanup_dedup_mu d)
          × ((e : Entry)
              → find key d.dedup_mu ≡ some e
              → e.held ≡ true
              → file_mutex first key (cleanup_dedup_mu d) ≡ (e.mutex, cleanup_dedup_mu d)))
unfolding cleanup_dedup_mu file_mutex file_found
cleanup_dedup_mu-file_mutex first key d h k = (
  file_mutex-IsBounded first key d h k,
  (
    omega (arith, length-held_only d.dedup_mu, h),
    λ e f g. rw (find-held_only key e d.dedup_mu f g) refl,
  ),
)
