-- ===== src/Ingest/Protocol.antt =====
-- internal/ingest/ingest.go: the order in which `Ingest` may lock, forward and write, as an automaton.
use thunder_go.Prelude.{
  ℕ, suc, ◌≡◌, refl, ap, Bool, true, false, Option, none, some, List, [], ◌∷◌, ◌++◌, if◌then◌else◌,
}
use thunder_go.Ingest.{
  World, Event, locks, unlocks, acquires, releases, counts_reuse, caches_peer, forwards, receives,
  deletes, inserts, replaces, Result, file, error, Check, valid, invalid, unknown, Stage, Seen,
  answer, absent, stale, validate_canonical_record, after_check, after_find, look,
}
use thunder_go.Prelude.Int.{ℤ, eqb_ℤ, eqb_ℤ_iff}
use thunder_go.Prelude.Text.{Text}
use thunder_go.Store.{FileRecord}

pub data Holding : Type 0 where
  nothing mutex both : Holding

-- The locks that are held and not asked to be released, the messages put in the vault and not asked
-- to be deleted, and the calls of Forward.
pub record Ledger : Type 0 where
  pub holding : Holding
  pub vault : List ℤ
  pub tries : ℕ

abbrev pub ledger : Holding → List ℤ → ℕ → Ledger
ledger h v t = record { holding = h; vault = v; tries = t }

without : ℤ → List ℤ → List ℤ
without id [] = []
without id (j ∷ js) = if eqb_ℤ j id then without id js else j ∷ without id js

-- The mutex comes first and goes last; only with both locks may the code forward, delete or write.
step : Event → Holding → List ℤ → ℕ → Option Ledger
unfolding without
step (locks k) nothing v t = some (ledger mutex v t)
step (unlocks k) mutex v t = some (ledger nothing v t)
step (acquires k) mutex v t = some (ledger both v t)
step (releases k ok) both v t = some (ledger mutex v t)
step (counts_reuse k) mutex v t = some (ledger mutex v t)
step (counts_reuse k) both v t = some (ledger both v t)
step caches_peer both v t = some (ledger both v t)
step forwards both v t = some (ledger both v (suc t))
step (receives m ms) both v t = some (ledger both (m.id ∷ v) t)
step (deletes id ok) both v t = some (ledger both (without id v) t)
step (inserts rec) both v t = some (ledger both v t)
step (replaces rec) both v t = some (ledger both v t)
step e h v t = none

abbrev go_on : (Ledger → Option Ledger) → Option Ledger → Option Ledger
go_on f none = none
go_on f (some l) = f l

unfoldable pub run : List Event → Ledger → Option Ledger
unfolding step
run [] l = some l
run (e ∷ es) l = go_on (run es) (step e l.holding l.vault l.tries)

pub run-append :
    (es fs : List Event) (l m : Ledger) → run es l ≡ some m → run (es ++ fs) l ≡ run fs m
unfolding run
run-append [] fs l m h = let same : l ≡ m = cc in ap (run fs) same
run-append (e ∷ es) fs l m h = go (run-append es fs) (step e l.holding l.vault l.tries) h
  where
    go :
        ((l' m' : Ledger) → run es l' ≡ some m' → run (es ++ fs) l' ≡ run fs m')
        → (o : Option Ledger) → go_on (run es) o ≡ some m
        → go_on (run (es ++ fs)) o ≡ run fs m
    go ih none k = cc
    go ih (some l') k = ih l' m k

pub run-deletes :
    (id : ℤ) (ok : Bool) (t : ℕ)
    → run (deletes id ok ∷ []) (ledger both (id ∷ []) t) ≡ some (ledger both [] t)
unfolding run step without
run-deletes id ok t = let e : eqb_ℤ id id ≡ true = (eqb_ℤ_iff id id).1 refl in rw e refl

-- What is in the vault with a result, and not asked to be deleted.
abbrev pub kept : Result → List ℤ
kept (file rec true) = []
kept (file rec false) = rec.vault_msg_id ∷ []
kept (error e) = []

-- A look that answers leaves nothing in the vault.
abbrev pub IsQuiet : Seen → Type 0
IsQuiet (answer r) = kept r ≡ []
IsQuiet absent = Unit
IsQuiet (stale rec) = Unit

-- A look changes no lock and nothing in the vault, with the mutex or with both locks.
abbrev pub IsLook : Seen × List Event → Type 0
IsLook r =
    ((v : List ℤ) (t : ℕ) → run r.1 (ledger mutex v t) ≡ some (ledger mutex v t))
    × (((v : List ℤ) (t : ℕ) → run r.1 (ledger both v t) ≡ some (ledger both v t)) × IsQuiet r.0)

after_check-IsLook :
    (stage : Stage) (key : Text) (rec : FileRecord) (c : Check)
    → IsLook (after_check stage key rec c)
unfolding after_check run step
after_check-IsLook stage key rec valid = ((λ v t. refl), ((λ v t. refl), refl))
after_check-IsLook stage key rec invalid = ((λ v t. refl), ((λ v t. refl), tt))
after_check-IsLook stage key rec unknown = ((λ v t. refl), ((λ v t. refl), refl))

after_find-IsLook :
    (w : World) (stage : Stage) (key : Text) (o : Option (Option FileRecord))
    → IsLook (after_find w stage key o)
unfolding after_find run
after_find-IsLook w stage key none = ((λ v t. refl), ((λ v t. refl), refl))
after_find-IsLook w stage key (some none) = ((λ v t. refl), ((λ v t. refl), tt))
after_find-IsLook w stage key (some (some rec)) =
    after_check-IsLook stage key rec (validate_canonical_record rec (w.lookup stage rec))

pub look-IsLook : (w : World) (key : Text) (stage : Stage) → IsLook (look w key stage)
unfolding look
look-IsLook w key stage = after_find-IsLook w stage key (w.find_file stage)
