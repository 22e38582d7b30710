-- ===== src/Examples/Tokens.antt =====
-- A token that is sent twice, an increment of a file, and a path to log.
use thunder_go.Prelude.{
  ℕ, suc, ◌≤◌, ◌≡◌, refl, inl, inr, Bool, true, false, Option, none, some, List, [], ◌∷◌, ◌++◌,
  arith, length, if◌then◌else◌, Bool-cases,
}
use thunder_go.Http.Redact.{file_path, prefix_of, redact_path, redact_path-token_hash}
use thunder_go.Prelude.Text.{Text, codes, text_eq}
use thunder_go.Store.Tokens.{Tokens}
use thunder_go.Store.Tokens.Once.{Deletes, times_consumed, times_consumed_once}
use thunder_go.Store.TouchBuffer.{TouchBuffer, new_touch_buffer, increment}
use thunder_go.Store.TouchBuffer.System.{System, sends, Reach, here, next}
use thunder_go.Store.TouchBuffer.Conserved.{Conserved, Reach-Conserved}
use thunder_go.Store.TouchBuffer.Returns.{Rounds, closed-Rounds}
use thunder_go.Tgutil.Hex.{token_hash}

-- One token at most, without an expiry.
abbrev pub has : Text → Option Text → Bool
has t none = false
has t (some u) = text_eq t u

abbrev take_token : Text → ℕ → Option Text → Option Bool × Option Text
take_token t now none = (some false, none)
take_token t now (some u) = if text_eq t u then (some true, none) else (some false, some u)

abbrev pub token_box : Tokens (Option Text)
token_box = record { insert_one = λ d s. (true, some d.token); find_one_and_delete = take_token }

found_lem :
    (t : Text) (now : ℕ) (s : Option Text)
    → (take_token t now s).0 ≡ some true
    → (has t s ≡ true) × (has t (take_token t now s).1 ≡ false)
found_lem t now none e = cc
found_lem t now (some u) e = elim (Bool-cases (text_eq t u)) [
  | inl p ↦ rw p (refl, refl)
  | inr p ↦ cc (rw p at e)
]

none_new_lem :
    (other t : Text) (now : ℕ) (s : Option Text)
    → has other s ≡ false
    → has other (take_token t now s).1 ≡ false
none_new_lem other t now none e = e
none_new_lem other t now (some u) e = elim (Bool-cases (text_eq t u)) [
  | inl p ↦ rw p refl
  | inr p ↦ rw p e
]

pub token_box-Deletes : Deletes token_box has
token_box-Deletes = record {
  found_had = λ t now s e. (found_lem t now s e).0;
  found_gone = λ t now s e. (found_lem t now s e).1;
  none_new = none_new_lem;
}

times_consumed_once_example :
    times_consumed token_box (codes "t") ((codes "t", 1) ∷ (codes "t", 2) ∷ []) (some (codes "t"))
    ≤ 1
times_consumed_once_example =
    times_consumed_once token_box has token_box-Deletes (codes "t")
      ((codes "t", 1) ∷ (codes "t", 2) ∷ []) (some (codes "t"))

abbrev queued : TouchBuffer
queued = record { ch = codes "k" ∷ []; counts = []; dropped = 0; closed = false; done = false }

abbrev one_given : System
one_given = record { buffer = queued; given = codes "k" ∷ []; lost = []; batches = [] }

one_given-Reach : Reach one_given
unfolding new_touch_buffer increment
one_given-Reach = next here (sends (codes "k") queued refl refl)

Reach-Conserved_example : Conserved one_given
Reach-Conserved_example = Reach-Conserved one_given-Reach

abbrev stopping : System
stopping = record one_given { buffer = record queued { closed = true } }

closed-Rounds_example :
    (t : System) × (Rounds (suc (length (codes "k" ∷ []))) stopping t) × (t.buffer.done ≡ true)
closed-Rounds_example = closed-Rounds stopping refl refl

abbrev identity_hash : Text → List ℕ
identity_hash t = t

redact_path-token_hash_example :
    redact_path identity_hash (prefix_of file_path ++ (codes "abc" ++ codes "/x"))
    ≡ prefix_of file_path ++ (token_hash identity_hash (codes "abc") ++ codes "/x")
redact_path-token_hash_example =
    redact_path-token_hash identity_hash file_path (codes "abc") (codes "/x") (omega arith) refl
