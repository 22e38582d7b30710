-- ===== src/Ingest/Forwarding/Verified.antt =====
-- internal/ingest/ingest.go: the message that the loop sends.
use thunder_go.Prelude.{
  ℕ, zero, suc, ◌≡◌, refl, inl, inr, true, false, ◌&&◌, ◌||◌, List, [], ◌∷◌, arith, ◌==◌,
  Bool-cases,
}
use thunder_go.Ingest.{World, Event, Forward, forward_error, messages, cut_off}
use thunder_go.Ingest.Forwarding.{Sent, sent, unsent, candidate, after_forward, forward_loop}
use thunder_go.Prelude.Int.{pos, eqb_ℤ}
use thunder_go.Prelude.Text.{Text, text_eq}
use thunder_go.Prelude.Text.Laws.{text_eq_iff}
use thunder_go.Tgutil.Media.{Message, file_key}

-- What is sent has the key, and some call of Forward has answered with it.
abbrev pub SentVerified : World → Text → Sent → Type 0
SentVerified w key (sent m) =
    (file_key m ≡ key) × (n : ℕ) × (ms : List Message) × (w.forward n ≡ messages (m ∷ ms))
SentVerified w key (unsent e) = Unit

module _ (w : World) (key : Text) where
  candidate-Verified :
      (n : ℕ) (m : Message) (ms : List Message)
      → w.forward n ≡ messages (m ∷ ms)
      → SentVerified w key (candidate w key m ms).0
  unfolding candidate
  candidate-Verified n m ms h = elim (Bool-cases (m.is_media && text_eq (file_key m) key)) [
    | inl e ↦ rw e ((text_eq_iff (file_key m) key).0 (ground arith), n, ms, h)
    | inr e ↦ rw e tt
  ]

  after_forward-Verified :
      (n : ℕ) (rest : Sent × List Event) (f : Forward)
      → SentVerified w key rest.0
      → w.forward n ≡ f
      → SentVerified w key (after_forward w key rest f).0
  unfolding after_forward
  after_forward-Verified n rest (forward_error true) h e = tt
  after_forward-Verified n rest (forward_error false) h e = h
  after_forward-Verified n rest (messages []) h e = h
  after_forward-Verified n rest (messages (m ∷ ms)) h e = elim (Bool-cases (eqb_ℤ m.id (pos 0))) [
    | inl z ↦ rw z h
    | inr z ↦ rw z (candidate-Verified n m ms e)
  ]
  after_forward-Verified n rest cut_off h e = tt

  pub forward_loop-Verified :
      (left attempt : ℕ) → SentVerified w key (forward_loop w key left attempt).0
  unfolding forward_loop
  forward_loop-Verified zero attempt = tt
  forward_loop-Verified (suc left) attempt =
      let rest =
        after_forward-Verified attempt _ (w.forward attempt)
          (forward_loop-Verified left (suc attempt)) refl in
      elim (Bool-cases (attempt == 0 || w.backoff attempt)) [ inl e ↦ rw e rest | inr e ↦ rw e tt ]
