-- ===== src/RateLimit/Gcra.antt =====
-- internal/ratelimit/ratelimit.go: the TATs under `AllowN`, and the slots that a user gets.
use thunder_go.Prelude.{
  ℕ, zero, suc, ◌+◌, ◌-◌, ◌*◌, ◌/◌, ◌≤◌, max, ◌≡◌, refl, ap, ◌∙◌, ◌≢◌, inl, inr, Bool, true, false,
  ◌&&◌, List, [], ◌∷◌, arith, ltb, Bool-cases,
}
use thunder_go.Prelude.Int.{eqb_ℤ, ℤ, pos, eqb_ℤ_iff}
use thunder_go.RateLimit.{
  Limiter, Verdict, tat_of, store_tat, advance, decide, allow_capped, allow_with, allow_n,
}
use thunder_go.RateLimit.Shards.{tat_of-store_tat}

-- The nanoseconds that a slot costs.
abbrev pub period : Limiter → ℕ → ℕ
period l c = l.window / suc c

abbrev pub Enabled : Limiter → ℕ → Type 0
Enabled l c = l.cap ≡ pos (suc c)

pub allow_n-Enabled :
    (now : ℕ) (l : Limiter) (user n : ℤ) (c : ℕ)
    → Enabled l c
    → allow_n now l user n ≡ allow_capped now l user (suc c) n
unfolding allow_n
allow_n-Enabled now l user n c e = ap (allow_with now l user n) e

-- All that a request for `n` slots does, for a limiter that is on.
pub record Effect (now : ℕ) (l : Limiter) (user : ℤ) (c n : ℕ) (v : Verdict) (l' : Limiter)
    : Type 0 where
  pub granted :
      v.allowed ≡ true
      → (tat_of l' user ≡ max (tat_of l user) now + period l c * n)
        × (tat_of l' user ≤ now + l.window)
        × (v.retry_after ≡ 0)
  pub refused : v.allowed ≡ false → tat_of l' user ≡ tat_of l user
  pub others : (other : ℤ) → other ≢ user → tat_of l' other ≡ tat_of l other
  pub cap : l'.cap ≡ l.cap
  pub window : l'.window ≡ l.window

next_tat : ℕ → Limiter → ℤ → ℕ → ℕ → ℕ
next_tat now l user c n = advance (period l c) now (tat_of l user) n

decide-Effect :
    (now : ℕ) (l : Limiter) (user : ℤ) (c n : ℕ)
    → let r = decide now l user (suc c) n in Effect now l user c n r.0 r.1
unfolding decide next_tat
decide-Effect now l user c n =
    let next = next_tat now l user c n in
    let old = tat_of l user in
    record {
      granted = λ e. ground (arith, tat_of-store_tat l user user next, eqb_ℤ_iff user user);
      refused = λ e. ground (arith, tat_of-store_tat l user user old, eqb_ℤ_iff user user);
      others = λ o d.
          ground (
            arith,
            tat_of-store_tat l user o next,
            tat_of-store_tat l user o old,
            eqb_ℤ_iff user o,
          );
      cap = unfold store_tat in ground arith;
      window = unfold store_tat in ground arith;
    }

idle-Effect :
    (now : ℕ) (l : Limiter) (user : ℤ) (c n : ℕ) (v : Verdict)
    → v.allowed ≡ false
    → Effect now l user c n v l
idle-Effect now l user c n v h = record {
  granted = λ e. cc;
  refused = λ e. refl;
  others = λ o d. refl;
  cap = refl;
  window = refl;
}

allow_capped-Effect :
    (now : ℕ) (l : Limiter) (user : ℤ) (c n : ℕ)
    → let r = allow_capped now l user (suc c) (pos n) in Effect now l user c n r.0 r.1
unfolding allow_capped
allow_capped-Effect now l user c zero = idle-Effect now l user c 0 _ refl
allow_capped-Effect now l user c (suc n) = elim (Bool-cases (ltb (suc c) (suc n))) [
  | inl over ↦ rw over (idle-Effect now l user c (suc n) _ refl)
  | inr fits ↦ rw fits (decide-Effect now l user c (suc n))
]

-- A request to an enabled limiter: a grant advances the user's TAT by the cost of its slots, from
-- the present if the TAT lies in the past, and never past one window ahead; a refusal leaves it;
-- no request touches another user's TAT, the cap or the window.
pub allow_n-Effect :
    (now : ℕ) (l : Limiter) (user : ℤ) (c n : ℕ)
    → Enabled l c
    → let r = allow_n now l user (pos n) in Effect now l user c n r.0 r.1
allow_n-Effect now l user c n e =
    rw (allow_n-Enabled now l user (pos n) c e) (allow_capped-Effect now l user c n)

-- A request in a history: when, by whom, for how many slots.
pub record Request : Type 0 where
  pub at : ℕ
  pub user : ℤ
  pub slots : ℕ

abbrev slots_if : Bool → ℕ → ℕ
slots_if true n = n
slots_if false n = 0

-- The slots that one user is granted in the course of a history.
pub granted_to : ℤ → Limiter → List Request → ℕ
granted_to u l [] = 0
granted_to u l (r ∷ rs) =
    let (v, l') = allow_n r.at l r.user (pos r.slots) in
    slots_if (v.allowed && eqb_ℤ r.user u) r.slots + granted_to u l' rs

-- The requests come in order, between two points in time.
abbrev pub InOrder : ℕ → ℕ → List Request → Type 0
InOrder from to [] = from ≤ to
InOrder from to (r ∷ rs) = (from ≤ r.at) × InOrder r.at to rs

-- How one request moves the TAT of a user `u`, who may be another user.
data Moved (now : ℕ) (l l' : Limiter) (u : ℤ) (c n : ℕ) (counted : Bool) : Type 0 where
  ahead :
      counted ≡ true
      → tat_of l' u ≡ max (tat_of l u) now + period l c * n
      → tat_of l' u ≤ now + l.window
      → Moved now l l' u c n counted
  still : counted ≡ false → tat_of l' u ≡ tat_of l u → Moved now l l' u c n counted

Effect-Moved :
    {now c n : ℕ} {l l' : Limiter} {v : Verdict} (user u : ℤ)
    → Effect now l user c n v l'
    → Moved now l l' u c n (v.allowed && eqb_ℤ user u)
Effect-Moved {now} {c} {n} {l} {l'} {v} user u f = elim (Bool-cases (eqb_ℤ user u)) [
  | inl same ↦ elim (Bool-cases v.allowed) [
    | inl yes' ↦
        (let e : user ≡ u = (eqb_ℤ_iff user u).0 same in
          ahead (rw (yes', same)) (rw (← e) ((f.granted yes').0)) (rw (← e) ((f.granted yes').1)))
    | inr no' ↦
        (let e : user ≡ u = (eqb_ℤ_iff user u).0 same in still (rw no') (rw (← e) (f.refused no')))
  ]
  | inr other ↦ still (ground arith) (f.others u (λ e. ground (arith, eqb_ℤ_iff user u)))
]

bound_step :
    (to g : ℕ) {now c n from : ℕ} {l l' : Limiter} {u : ℤ} {counted : Bool}
    → Moved now l l' u c n counted
    → l'.window ≡ l.window
    → from ≤ now
    → tat_of l u ≤ from + l.window
    → (tat_of l' u ≤ now + l.window → max (tat_of l' u) now + period l c * g ≤ to + l.window)
    → max (tat_of l u) from + period l c * (slots_if counted n + g) ≤ to + l.window
bound_step to g {l} {u} (ahead t e b) w o h next = rw t (omega (arith, next (omega arith)))
bound_step to g {l} {u} (still t e) w o h next = rw t (omega (arith, next (omega arith)))

InOrder-le : (from to : ℕ) (rs : List Request) → InOrder from to rs → from ≤ to
InOrder-le from to [] o = o
InOrder-le from to (r ∷ rs) o = omega (arith, o.0, InOrder-le r.at to rs o.1)

granted_bound_from :
    (u : ℤ) (l : Limiter) (c from to : ℕ) (rs : List Request)
    → Enabled l c
    → InOrder from to rs
    → tat_of l u ≤ from + l.window
    → max (tat_of l u) from + period l c * granted_to u l rs ≤ to + l.window
unfolding granted_to
granted_bound_from u l c from to [] e o h = omega arith
granted_bound_from u l c from to (r ∷ rs) e o h =
    let f = allow_n-Effect r.at l r.user c r.slots e in
    let l' = (allow_n r.at l r.user (pos r.slots)).1 in
    bound_step to (granted_to u l' rs) (Effect-Moved r.user u f) f.window o.0 h
      (λ b. rw f.window at (granted_bound_from u l' c r.at to rs (f.cap ∙ e) o.1 (rw f.window b)))

-- Whatever the users do between two points in time, the slots that a user is granted cost no more
-- than that time and one window, at a period of window / cap for each slot.
pub granted_bound :
    (u : ℤ) (l : Limiter) (c from to : ℕ) (rs : List Request)
    → Enabled l c
    → InOrder from to rs
    → tat_of l u ≤ from + l.window
    → period l c * granted_to u l rs ≤ l.window + (to - from)
granted_bound u l c from to rs e o h =
    omega (arith, granted_bound_from u l c from to rs e o h, InOrder-le from to rs o)
