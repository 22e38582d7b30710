-- ===== src/Store/TouchBuffer/System.antt =====
-- internal/store/store.go: the touch buffer and the calls on it as steps, and the counts of a key.
use thunder_go.Prelude.{
  ℕ, zero, suc, ◌+◌, ◌-◌, ◌*◌, ◌/◌, ◌%◌, ◌^◌, ◌≤◌, ◌<◌, min, max, ◌≡◌, refl, sym, ap, ◌∙◌, subst,
  ◌≢◌, ◌↔◌, ◌⊎◌, inl, inr, Bool, true, false, not, ◌&&◌, ◌||◌, Option, none, some, List, [], ◌∷◌,
  ◌++◌, map, append-nil, append_assoc, arith, length, get_elem?, set, take, drop, length-append,
  length-take, length-drop, All, All-append, All-map, All_at, get_elem?-append,
  get_elem?-append_length, ltb, leb, ◌==◌, if◌then◌else◌, tests, leb→le, le→leb, leb-false→lt,
  ltb→lt, lt→ltb, ltb-false→le, Bool-cases, Option-cases,
}
use thunder_go.Prelude.Dict.{lookup-insert}
use thunder_go.Prelude.Text.{Text, text_eq}
use thunder_go.Prelude.Text.Laws.{text_eq_iff}
use thunder_go.Store.TouchBuffer.{
  touch_channel_capacity, TouchBuffer, new_touch_buffer, increment, counted, bump, bump_all,
  flush_counts, flush, receive, stop, drain,
}

-- The buffer, the keys given to `Increment`, those dropped, and the batches handed to BulkWrite.
pub record System : Type 0 where
  pub buffer : TouchBuffer
  pub given : List Text
  pub lost : List Text
  pub batches : List (List (Text × ℕ))

abbrev pub start : System
start = record { buffer = new_touch_buffer; given = []; lost = []; batches = [] }

-- A key goes into the channel or is dropped; the loop receives a key or its ticker fires; `Stop` is
-- called; and once it has been and the channel is empty, a receive fails, and the loop ends.
pub data Step (s : System) : System → Type 0 where
  sends :
      (key : Text) (b : TouchBuffer)
      → ltb (length s.buffer.ch) touch_channel_capacity ≡ true
      → increment key s.buffer ≡ some b
      → Step s (record s { buffer = b; given = key ∷ s.given })
  drops :
      (key : Text) (b : TouchBuffer)
      → ltb (length s.buffer.ch) touch_channel_capacity ≡ false
      → increment key s.buffer ≡ some b
      → Step s (record s { buffer = b; given = key ∷ s.given; lost = key ∷ s.lost })
  receives : (b : TouchBuffer) → receive s.buffer ≡ some b → Step s (record s { buffer = b })
  ticks :
      s.buffer.done ≡ false
      → Step s (record s { buffer = (flush s.buffer).1; batches = (flush s.buffer).0 ++ s.batches })
  stops : (b : TouchBuffer) → stop s.buffer ≡ some b → Step s (record s { buffer = b })
  drains :
      s.buffer.closed ≡ true
      → s.buffer.ch ≡ []
      → s.buffer.done ≡ false
      → Step s (record s { buffer = (drain s.buffer).1; batches = (drain s.buffer).0 ++ s.batches })

pub data Reach : System → Type 0 where
  here : Reach start
  next : {s t : System} → Reach s → Step s t → Reach t

abbrev pub one : Text → Text → ℕ
one key k = if text_eq key k then 1 else 0

unfoldable pub occurrences : List Text → Text → ℕ
occurrences [] k = 0
occurrences (key ∷ keys) k = one key k + occurrences keys k

unfoldable pub handed : List (List (Text × ℕ)) → Text → ℕ
handed [] k = 0
handed (batch ∷ batches) k = counted k batch + handed batches k

pub occurrences-append :
    (xs ys : List Text) (k : Text) → occurrences (xs ++ ys) k ≡ occurrences xs k + occurrences ys k
unfolding occurrences
occurrences-append [] ys k = omega arith
occurrences-append (x ∷ xs) ys k = omega (arith, occurrences-append xs ys k)

pub counted-bump :
    (key k : Text) (m : List (Text × ℕ)) → counted k (bump key m) ≡ one key k + counted k m
unfolding counted bump
counted-bump key k m = ground (arith, lookup-insert key k (counted key m + 1) m, text_eq_iff key k)

pub counted-bump_all :
    (keys : List Text) (k : Text) (m : List (Text × ℕ))
    → counted k (bump_all keys m) ≡ occurrences keys k + counted k m
unfolding bump_all occurrences
counted-bump_all [] k m = omega arith
counted-bump_all (key ∷ keys) k m =
    omega (arith, counted-bump_all keys k (bump key m), counted-bump key k m)

pub handed-append :
    (xs ys : List (List (Text × ℕ))) (k : Text) → handed (xs ++ ys) k ≡ handed xs k + handed ys k
unfolding handed
handed-append [] ys k = omega arith
handed-append (x ∷ xs) ys k = omega (arith, handed-append xs ys k)

pub counted_none : (k : Text) → counted k [] ≡ 0
unfolding counted thunder_go.Prelude.Assoc.lookup
counted_none k = refl

-- What a flush hands over are the counts, and it leaves none.
pub flush-counted : (b : TouchBuffer) (k : Text) → handed (flush b).0 k ≡ counted k b.counts
unfolding flush
flush-counted b k = go b.counts
  where
    go : (cs : List (Text × ℕ)) → handed (flush_counts b cs).0 k ≡ counted k cs
    go [] = unfold flush_counts handed in sym (counted_none k)
    go (c ∷ cs) = unfold flush_counts handed in omega arith

abbrev pub IsFlushed : TouchBuffer → TouchBuffer → Type 0
IsFlushed b b' =
    (b'.counts ≡ [])
    × ((b'.ch ≡ b.ch) × ((b'.dropped ≡ b.dropped) × ((b'.closed ≡ b.closed) × (b'.done ≡ b.done))))

pub flush-IsFlushed : (b : TouchBuffer) → IsFlushed b (flush b).1
unfolding flush
flush-IsFlushed b = go b.counts refl
  where
    go : (cs : List (Text × ℕ)) → b.counts ≡ cs → IsFlushed b (flush_counts b cs).1
    go [] e = unfold flush_counts in (e, (refl, (refl, (refl, refl))))
    go (c ∷ cs) e = unfold flush_counts in (refl, (refl, (refl, (refl, refl))))
