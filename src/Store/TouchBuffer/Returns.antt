-- ===== src/Store/TouchBuffer/Returns.antt =====
-- internal/store/store.go: the end of `flushLoop` after `Stop`.
use thunder_go.Prelude.{ℕ, zero, suc, ◌≡◌, refl, ap, ◌∙◌, true, false, some, List, [], ◌∷◌, length}
use thunder_go.Store.TouchBuffer.{TouchBuffer, bump, receive_from, receive, drain}
use thunder_go.Store.TouchBuffer.System.{System, Step, receives, drains}
use thunder_go.Prelude.Text.{Text}

-- So many steps.
pub data Rounds : ℕ → System → System → Type 0 where
  ended : {s : System} → Rounds zero s s
  round : {n : ℕ} {s t u : System} → Step s t → Rounds n t u → Rounds (suc n) s u

last_round :
    (s : System)
    → s.buffer.closed ≡ true
    → s.buffer.done ≡ false
    → s.buffer.ch ≡ []
    → (t : System) × (Rounds 1 s t) × (t.buffer.done ≡ true)
last_round s c d e = (_, round (drains c e d) ended, unfold drain in refl)

receive-cons :
    (b : TouchBuffer) (key : Text) (keys : List Text)
    → b.ch ≡ key ∷ keys
    → receive b ≡ some (record b { ch = keys; counts = bump key b.counts })
unfolding receive
receive-cons b key keys e = ap (receive_from b) e ∙ unfold receive_from in refl

Rounds-left :
    (ch : List Text) (s : System)
    → s.buffer.ch ≡ ch
    → s.buffer.closed ≡ true
    → s.buffer.done ≡ false
    → (t : System) × (Rounds (suc (length ch)) s t) × (t.buffer.done ≡ true)
Rounds-left [] s e c d = last_round s c d e
Rounds-left (key ∷ keys) s e c d =
    let r = receives _ (receive-cons s.buffer key keys e) in
    let (t, rest, end) = Rounds-left keys _ refl c d in (t, round r rest, end)

-- Once `Stop` has closed the channel, the loop can go on until it returns: the keys that are left
-- in the channel, a round for each, and one more round.
pub closed-Rounds :
    (s : System)
    → s.buffer.closed ≡ true
    → s.buffer.done ≡ false
    → (t : System) × (Rounds (suc (length s.buffer.ch)) s t) × (t.buffer.done ≡ true)
closed-Rounds s c d = Rounds-left s.buffer.ch s refl c d
