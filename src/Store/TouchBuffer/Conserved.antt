-- ===== src/Store/TouchBuffer/Conserved.antt =====
-- internal/store/store.go: the increments of the touch buffer, from `Increment` to BulkWrite.
use thunder_go.Prelude.{
  ◌+◌, ◌≤◌, ◌≡◌, refl, sym, ap, ◌∙◌, subst, true, false, some, List, [], ◌∷◌, ◌++◌, arith, length,
  length-append, ltb, ltb→lt,
}
use thunder_go.Prelude.Text.{Text}
use thunder_go.Store.TouchBuffer.{
  touch_channel_capacity, TouchBuffer, new_touch_buffer, increment, counted, bump, bump_all, flush,
  receive_from, receive, stop, drain,
}
use thunder_go.Store.TouchBuffer.System.{
  System, start, Step, sends, drops, receives, ticks, stops, drains, Reach, here, next, one,
  occurrences, handed, occurrences-append, counted-bump, counted-bump_all, handed-append,
  counted_none, flush-counted, flush-IsFlushed,
}

-- Nothing is lost without being counted as dropped.
pub record Conserved (s : System) : Type 0 where
  pub balance :
      (k : Text)
      → occurrences s.given k
        ≡ handed s.batches k
          + counted k s.buffer.counts
          + occurrences s.buffer.ch k
          + occurrences s.lost k
  pub dropped_all : length s.lost ≡ s.buffer.dropped
  pub in_capacity : length s.buffer.ch ≤ touch_channel_capacity
  pub done_closed : s.buffer.done ≡ true → s.buffer.closed ≡ true
  pub done_empty : s.buffer.done ≡ true → (s.buffer.counts ≡ []) × (s.buffer.ch ≡ [])

start-Conserved : Conserved start
unfolding new_touch_buffer
start-Conserved = record {
  balance = λ k. unfold occurrences handed in omega (arith, counted_none k);
  dropped_all = refl;
  in_capacity = omega arith;
  done_closed = λ h. cc;
  done_empty = λ h. (refl, refl);
}

-- What a call that does not panic leaves.
increment-room :
    (key : Text) (b b' : TouchBuffer)
    → ltb (length b.ch) touch_channel_capacity ≡ true
    → increment key b ≡ some b'
    → (b.closed ≡ false) × (record b { ch = b.ch ++ (key ∷ []) } ≡ b')
unfolding increment
increment-room key b b' room e = ground arith

increment-full :
    (key : Text) (b b' : TouchBuffer)
    → ltb (length b.ch) touch_channel_capacity ≡ false
    → increment key b ≡ some b'
    → (b.closed ≡ false) × (record b { dropped = b.dropped + 1 } ≡ b')
unfolding increment
increment-full key b b' room e = ground arith

stop-closed : (b b' : TouchBuffer) → stop b ≡ some b' → record b { closed = true } ≡ b'
unfolding stop
stop-closed b b' e = ground arith

receive-head :
    (b b' : TouchBuffer)
    → receive b ≡ some b'
    → (key : Text) × (keys : List Text) × (b.ch ≡ key ∷ keys)
      × (record b { ch = keys; counts = bump key b.counts } ≡ b')
unfolding receive receive_from
receive-head b b' e = go b.ch refl e
  where
    go :
        (ch : List Text)
        → b.ch ≡ ch
        → receive_from b ch ≡ some b'
        → (key : Text) × (keys : List Text) × (b.ch ≡ key ∷ keys)
          × (record b { ch = keys; counts = bump key b.counts } ≡ b')
    go [] h k = cc
    go (key ∷ keys) h k = (key, keys, h, cc)

-- Each step keeps the balance.
module _ (s : System) (h : Conserved s) where
  sends-Conserved :
      (key : Text) (b : TouchBuffer)
      → ltb (length s.buffer.ch) touch_channel_capacity ≡ true
      → increment key s.buffer ≡ some b
      → Conserved (record s { buffer = b; given = key ∷ s.given })
  sends-Conserved key b room e =
      let (live, same) = increment-room key s.buffer b room e in
      subst (λ b. Conserved (record s { buffer = b; given = key ∷ s.given })) same
        (record {
          balance = λ k.
              unfold occurrences in
              omega (arith, h.balance k, occurrences-append s.buffer.ch (key ∷ []) k);
          dropped_all = h.dropped_all;
          in_capacity = omega (
            arith,
            length-append s.buffer.ch (key ∷ []),
            ltb→lt (length s.buffer.ch) touch_channel_capacity room,
          );
          done_closed = h.done_closed;
          done_empty = λ d. let c = h.done_closed d in absurd (ground arith);
        })

  drops-Conserved :
      (key : Text) (b : TouchBuffer)
      → ltb (length s.buffer.ch) touch_channel_capacity ≡ false
      → increment key s.buffer ≡ some b
      → Conserved (record s { buffer = b; given = key ∷ s.given; lost = key ∷ s.lost })
  drops-Conserved key b room e =
      let (live, same) = increment-full key s.buffer b room e in
      subst (λ b. Conserved (record s { buffer = b; given = key ∷ s.given; lost = key ∷ s.lost }))
        same
        (record {
          balance = λ k. unfold occurrences in omega (arith, h.balance k);
          dropped_all = omega (arith, h.dropped_all);
          in_capacity = h.in_capacity;
          done_closed = h.done_closed;
          done_empty = h.done_empty;
        })

  receives-Conserved :
      (b : TouchBuffer) → receive s.buffer ≡ some b → Conserved (record s { buffer = b })
  receives-Conserved b e =
      let (key, keys, same, left) = receive-head s.buffer b e in
      subst (λ b. Conserved (record s { buffer = b })) left
        (record {
          balance = λ k.
              let c : occurrences s.buffer.ch k ≡ one key k + occurrences keys k =
                rw same (unfold occurrences in refl) in
              omega (arith, h.balance k, c, counted-bump key k s.buffer.counts);
          dropped_all = h.dropped_all;
          in_capacity = omega (arith, h.in_capacity, ap length same);
          done_closed = h.done_closed;
          done_empty = λ d. let none_left = (h.done_empty d).1 in cc;
        })

  ticks-Conserved :
      s.buffer.done ≡ false
      → Conserved
          (record s { buffer = (flush s.buffer).1; batches = (flush s.buffer).0 ++ s.batches })
  ticks-Conserved d =
      let f = flush-IsFlushed s.buffer in
      record {
        balance = λ k.
            let none_left : counted k (flush s.buffer).1.counts ≡ 0 =
              subst (λ c. counted k c ≡ 0) (sym f.0) (counted_none k) in
            omega (
              arith,
              h.balance k,
              handed-append (flush s.buffer).0 s.batches k,
              flush-counted s.buffer k,
              none_left,
              ap (λ c. occurrences c k) f.1.0,
            );
        dropped_all = h.dropped_all ∙ sym f.1.1.0;
        in_capacity = omega (arith, h.in_capacity, ap length f.1.0);
        done_closed = λ e. f.1.1.1.0 ∙ h.done_closed (sym f.1.1.1.1 ∙ e);
        done_empty = λ e. (f.0, f.1.0 ∙ (h.done_empty (sym f.1.1.1.1 ∙ e)).1);
      }

  stops-Conserved : (b : TouchBuffer) → stop s.buffer ≡ some b → Conserved (record s { buffer = b })
  stops-Conserved b e =
      subst (λ b. Conserved (record s { buffer = b })) (stop-closed s.buffer b e)
        (record {
          balance = h.balance;
          dropped_all = h.dropped_all;
          in_capacity = h.in_capacity;
          done_closed = λ d. refl;
          done_empty = h.done_empty;
        })

  drains-Conserved :
      s.buffer.closed ≡ true
      → s.buffer.ch ≡ []
      → Conserved
          (record s { buffer = (drain s.buffer).1; batches = (drain s.buffer).0 ++ s.batches })
  unfolding drain
  drains-Conserved c e =
      let b : TouchBuffer = record s.buffer {
        ch = [];
        counts = bump_all s.buffer.ch s.buffer.counts;
      } in
      let f = flush-IsFlushed b in
      record {
        balance = λ k.
            let none_left : counted k (flush b).1.counts ≡ 0 =
              subst (λ c. counted k c ≡ 0) (sym f.0) (counted_none k) in
            let empty : occurrences (flush b).1.ch k ≡ 0 =
              ap (λ c. occurrences c k) f.1.0 ∙ unfold occurrences in refl in
            omega (
              arith,
              h.balance k,
              handed-append (flush b).0 s.batches k,
              flush-counted b k,
              none_left,
              empty,
              counted-bump_all s.buffer.ch k s.buffer.counts,
            );
        dropped_all = h.dropped_all ∙ sym f.1.1.0;
        in_capacity = omega (arith, ap length f.1.0);
        done_closed = λ d. f.1.1.1.0 ∙ c;
        done_empty = λ d. (f.0, f.1.0);
      }

Step-Conserved : {s t : System} → Step s t → Conserved s → Conserved t
Step-Conserved {s} (sends key b room e) h = sends-Conserved s h key b room e
Step-Conserved {s} (drops key b room e) h = drops-Conserved s h key b room e
Step-Conserved {s} (receives b e) h = receives-Conserved s h b e
Step-Conserved {s} (ticks d) h = ticks-Conserved s h d
Step-Conserved {s} (stops b e) h = stops-Conserved s h b e
Step-Conserved {s} (drains c e d) h = drains-Conserved s h c e

-- In every state that the buffer reaches, each increment of a key has been handed to BulkWrite,
-- stands in the counts or in the channel, or is one of those dropped, whose number is `Dropped`;
-- the channel has 1000 keys at most, and nothing is left in it or in the counts once the loop has
-- returned, which it does only after `Stop`.
pub Reach-Conserved : {s : System} → Reach s → Conserved s
Reach-Conserved here = start-Conserved
Reach-Conserved (next r st) = Step-Conserved st (Reach-Conserved r)
