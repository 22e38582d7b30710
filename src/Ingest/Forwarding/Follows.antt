-- ===== src/Ingest/Forwarding/Follows.antt =====
-- internal/ingest/ingest.go: the events of the loop that forwards.
use thunder_go.Prelude.{
  ℕ, zero, suc, ◌+◌, ◌≤◌, ◌≡◌, refl, inl, inr, true, false, ◌&&◌, ◌||◌, some, List, [], ◌∷◌, arith,
  ◌==◌, Bool-cases,
}
use thunder_go.Ingest.{World, Event, Forward, forward_error, messages, cut_off, forwards}
use thunder_go.Ingest.Forwarding.{
  vault_peer_resolved, Sent, sent, unsent, candidate, after_forward, forward_loop,
}
use thunder_go.Ingest.Protocol.{both, ledger, run, run-deletes}
use thunder_go.Prelude.Int.{ℤ, pos, eqb_ℤ}
use thunder_go.Prelude.Text.{Text, text_eq}
use thunder_go.Tgutil.Media.{Message, file_key}

abbrev pub in_vault : Sent → List ℤ
in_vault (sent m) = m.id ∷ []
in_vault (unsent e) = []

-- From an empty vault, so many calls at most, and in the end the vault has what is sent.
abbrev pub IsSending : ℕ → Sent × List Event → Type 0
IsSending left r =
    (t : ℕ)
    → (u : ℕ) × (u ≤ t + left) × (run r.1 (ledger both [] t) ≡ some (ledger both (in_vault r.0) u))

pub vault_peer_resolved-run :
    (w : World) (v : List ℤ) (t : ℕ)
    → run (vault_peer_resolved w).1 (ledger both v t) ≡ some (ledger both v t)
unfolding vault_peer_resolved
vault_peer_resolved-run w v t = elim (Bool-cases w.peer_cached) [
  | inl e ↦ rw e (unfold run in refl)
  | inr e ↦ elim (Bool-cases w.primary_again) [
    | inr f ↦ rw (e, f) (unfold run in refl)
    | inl f ↦ elim (Bool-cases (w.resolves 0 || w.resolves 1)) [
      | inl g ↦ rw (e, f, g) (unfold run in refl)
      | inr g ↦ rw (e, f, g) (unfold run in refl)
    ]
  ]
]

module _ (w : World) (key : Text) where
  candidate-IsSending : (m : Message) (ms : List Message) → IsSending 1 (candidate w key m ms)
  unfolding candidate run
  candidate-IsSending m ms t = elim (Bool-cases (m.is_media && text_eq (file_key m) key)) [
    | inl e ↦ rw e (suc t, omega arith, refl)
    | inr e ↦ rw e (suc t, omega arith, run-deletes m.id (w.deletes_ok m.id) (suc t))
  ]

  -- A call of Forward before the rest.
  one_more :
      (left : ℕ) (r : Sent × List Event)
      → IsSending left r
      → IsSending (suc left) (r.0, forwards ∷ r.1)
  unfolding run
  one_more left r h t = let k = h (suc t) in (k.0, omega (arith, k.1), k.2)

  more : (left : ℕ) (r : Sent × List Event) → IsSending 1 r → IsSending (suc left) r
  more left r h t = let k = h t in (k.0, omega (arith, k.1), k.2)

  after_forward-IsSending :
      (left : ℕ) (rest : Sent × List Event) (f : Forward)
      → IsSending left rest
      → IsSending (suc left) (after_forward w key rest f)
  unfolding after_forward
  after_forward-IsSending left rest (forward_error true) h =
      λ t. (suc t, omega arith, unfold run in refl)
  after_forward-IsSending left rest (forward_error false) h = one_more left rest h
  after_forward-IsSending left rest (messages []) h = one_more left rest h
  after_forward-IsSending left rest (messages (m ∷ ms)) h = elim (Bool-cases (eqb_ℤ m.id (pos 0))) [
    | inl e ↦ rw e (one_more left rest h)
    | inr e ↦ rw e (more left (candidate w key m ms) (candidate-IsSending m ms))
  ]
  after_forward-IsSending left rest cut_off h = λ t. (suc t, omega arith, unfold run in refl)

  pub forward_loop-IsSending : (left attempt : ℕ) → IsSending left (forward_loop w key left attempt)
  unfolding forward_loop
  forward_loop-IsSending zero attempt = λ t. (t, omega arith, unfold run in refl)
  forward_loop-IsSending (suc left) attempt =
      let rest =
        after_forward-IsSending left _ (w.forward attempt)
          (forward_loop-IsSending left (suc attempt)) in
      elim (Bool-cases (attempt == 0 || w.backoff attempt)) [
        | inl e ↦ rw e rest
        | inr e ↦ rw e (λ (t : ℕ). (t, omega arith, unfold run in refl))
      ]
