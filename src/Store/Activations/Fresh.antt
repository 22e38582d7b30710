-- ===== src/Store/Activations/Fresh.antt =====
-- internal/store/store.go: what `IsUserActivated` answers after `ActivateUser`.
use thunder_go.Prelude.{
  ℕ, ◌+◌, ◌<◌, ◌≡◌, refl, sym, ap, ◌∙◌, subst, Bool, true, false, Option, none, some, ltb,
}
use thunder_go.Cache.{Cache, get, invalidate}
use thunder_go.Cache.Laws.{Distinct}
use thunder_go.Cache.Peek.{peek-remove_element, get-peek}
use thunder_go.Prelude.Int.{ℤ}
use thunder_go.Prelude.Text.{Text}
use thunder_go.Prelude.Text.Laws.{text_eq_refl}
use thunder_go.Prelude.Text.Decimal.{print_int}
use thunder_go.Store.Activations.{ActivatedUsers, as_of, activate_user, is_user_activated}
use thunder_go.Store.Flags.{Flags, flag, is_flagged, after_write, after_get, finish_read}

-- How MongoDB behaves: a document that was written without an error is counted until it expires.
abbrev pub Counts : {S : Type 0} → ActivatedUsers S → Type 0
Counts {S} db =
    (expires_at time : ℕ) (user : ℤ) (s : S) (n : ℕ)
    → (db.upsert_until expires_at user s).0 ≡ true
    → time < expires_at
    → db.count_active time user (db.upsert_until expires_at user s).1 ≡ some n
    → ltb 0 n ≡ true

get-invalidate :
    {V : Type 0} (now : ℕ) (k : Text) (c : Cache V)
    → Distinct c.ll
    → (get now k (invalidate k c)).0 ≡ none
unfolding invalidate
get-invalidate now k c d =
    rw (get-peek now k (invalidate k c), peek-remove_element k k c.ll d, text_eq_refl k) refl

module _ {S : Type 0} (db : ActivatedUsers S) (counts : Counts db) where
  -- A read that finds nothing in the cache counts.
  uncached :
      (now later : ℕ) (user : ℤ) (f : Flags S) (v : Bool)
      → (get now (print_int user) f.cache).0 ≡ none
      → (is_user_activated db now later user f).0 ≡ some v
      → (n : ℕ) × (db.count_active later user f.documents ≡ some n) × (ltb 0 n ≡ v)
  unfolding is_user_activated is_flagged after_get
  uncached now later user f v miss answered = go (get now (print_int user) f.cache) miss answered
    where
      counted :
          (c : Cache Bool) (o : Option ℕ)
          → db.count_active later user f.documents ≡ o
          → (finish_read
              (as_of db later later)
              later
              user
              o
              (record { documents = f.documents; cache = c })).0
            ≡ some v
          → (n : ℕ) × (db.count_active later user f.documents ≡ some n) × (ltb 0 n ≡ v)
      counted c none e h = unfold finish_read in cc h
      counted c (some n) e h = unfold finish_read in (n, e, cc h)

      go :
          (r : Option Bool × Cache Bool)
          → r.0 ≡ none
          → (after_get (as_of db later later) later user f.documents r).0 ≡ some v
          → (n : ℕ) × (db.count_active later user f.documents ≡ some n) × (ltb 0 n ≡ v)
      go (some w, c) e h = cc e
      go (none, c) e h = counted c _ refl h

  -- The next `IsUserActivated`, if it counts before the activation expires, says yes or has an error.
  pub is_user_activated-activate_user :
      (at ttl now later : ℕ) (user : ℤ) (f : Flags S) (v : Bool)
      → Distinct f.cache.ll
      → (activate_user db at ttl user f).0 ≡ true
      → later < at + ttl
      → (is_user_activated db now later user (activate_user db at ttl user f).1).0 ≡ some v
      → v ≡ true
  unfolding activate_user flag after_write
  is_user_activated-activate_user at ttl now later user f v distinct ok live answered =
      go (db.upsert_until (at + ttl) user f.documents) refl ok answered
    where
      go :
          (r : Bool × S)
          → db.upsert_until (at + ttl) user f.documents ≡ r
          → (after_write (as_of db (at + ttl) at) user f.cache r).0 ≡ true
          → (is_user_activated db now later user
              (after_write (as_of db (at + ttl) at) user f.cache r).1).0
            ≡ some v
          → v ≡ true
      go (false, s) e h k = cc h
      go (true, s) e h k =
          let (n, c, same) =
            uncached now later user
              (record { documents = s; cache = invalidate (print_int user) f.cache }) v
              (get-invalidate now (print_int user) f.cache distinct) k in
          sym same
          ∙ counts (at + ttl) later user f.documents n (ap (λ r. r.0) e) live
              (subst (λ t. db.count_active later user t ≡ some n) (sym (ap (λ r. r.1) e)) c)
