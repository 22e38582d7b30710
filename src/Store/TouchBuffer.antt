-- ===== src/Store/TouchBuffer.antt =====
-- internal/store/store.go: the touch buffer, which batches the increments of `seen_count`.
-- `Increment` and the rounds of `flushLoop` share the channel, so they are steps of a system.
pub mod System
pub mod Conserved
pub mod Returns
use thunder_go.Prelude.{
  ℕ, zero, suc, ◌+◌, ◌-◌, ◌*◌, ◌/◌, ◌%◌, ◌^◌, ◌≤◌, ◌<◌, min, max, ◌≡◌, refl, sym, ap, ◌∙◌, subst,
  ◌≢◌, ◌↔◌, ◌⊎◌, inl, inr, Bool, true, false, not, ◌&&◌, ◌||◌, Option, none, some, List, [], ◌∷◌,
  ◌++◌, map, append-nil, append_assoc, arith, length, get_elem?, set, take, drop, length-append,
  length-take, length-drop, All, All-append, All-map, All_at, get_elem?-append,
  get_elem?-append_length, ltb, leb, ◌==◌, if◌then◌else◌, tests, leb→le, le→leb, leb-false→lt,
  ltb→lt, lt→ltb, ltb-false→le, Bool-cases, Option-cases,
}
use thunder_go.Prelude.Dict.{lookup, insert}
use thunder_go.Prelude.Text.{Text}

abbrev pub touch_channel_capacity : ℕ
touch_channel_capacity = 1000

-- The counts are those of `flushLoop`; `done` is closed when the loop has returned.
pub record TouchBuffer : Type 0 where
  pub ch : List Text
  pub counts : List (Text × ℕ)
  pub dropped : ℕ
  pub closed : Bool
  pub done : Bool

unfoldable pub new_touch_buffer : TouchBuffer
new_touch_buffer = record { ch = []; counts = []; dropped = 0; closed = false; done = false }

-- `none` is the panic of a send on a closed channel.
unfoldable pub increment : Text → TouchBuffer → Option TouchBuffer
increment key b =
    if b.closed
    then none
    else if ltb (length b.ch) touch_channel_capacity
    then some (record b { ch = b.ch ++ (key ∷ []) })
    else some (record b { dropped = b.dropped + 1 })

unfoldable pub counted : Text → List (Text × ℕ) → ℕ
counted key counts = elim (lookup key counts) [ none ↦ 0 | some n ↦ n ]

-- counts[key]++
pub bump : Text → List (Text × ℕ) → List (Text × ℕ)
unfolding counted
bump key counts = insert key (counted key counts + 1) counts

pub bump_all : List Text → List (Text × ℕ) → List (Text × ℕ)
unfolding bump
bump_all [] counts = counts
bump_all (key ∷ keys) counts = bump_all keys (bump key counts)

-- What is handed to BulkWrite, if anything, and the buffer with the counts reset.
flush_counts : TouchBuffer → List (Text × ℕ) → List (List (Text × ℕ)) × TouchBuffer
flush_counts b [] = ([], b)
flush_counts b (c ∷ cs) = ((c ∷ cs) ∷ [], record b { counts = [] })

unfoldable pub flush : TouchBuffer → List (List (Text × ℕ)) × TouchBuffer
unfolding flush_counts
flush b = flush_counts b b.counts

-- One round that receives a key: the channel is not empty.
receive_from : TouchBuffer → List Text → Option TouchBuffer
unfolding bump
receive_from b [] = none
receive_from b (key ∷ keys) = some (record b { ch = keys; counts = bump key b.counts })

unfoldable pub receive : TouchBuffer → Option TouchBuffer
unfolding receive_from
receive b = receive_from b b.ch

-- `Stop` closes the channel; to close it again panics.
unfoldable pub stop : TouchBuffer → Option TouchBuffer
stop b = if b.closed then none else some (record b { closed = true })

-- The last round of the loop: what the closed channel still holds is counted and flushed.
unfoldable pub drain : TouchBuffer → List (List (Text × ℕ)) × TouchBuffer
unfolding bump_all flush
drain b =
    let (batches, b') = flush (record b { ch = []; counts = bump_all b.ch b.counts }) in
    (batches, record b' { done = true })
