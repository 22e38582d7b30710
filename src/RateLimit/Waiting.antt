-- ===== src/RateLimit/Waiting.antt =====
-- internal/ratelimit/ratelimit.go: the wait that a refusal of `AllowN` advertises.
use thunder_go.Prelude.{
  ℕ, suc, ◌+◌, ◌-◌, ◌*◌, ◌/◌, ◌≤◌, max, ◌≡◌, sym, ap, ◌∙◌, true, false, arith, ltb, leb,
  if◌then◌else◌,
}
use thunder_go.Prelude.Int.{ℤ, pos}
use thunder_go.RateLimit.{Limiter, Verdict, tat_of, decide, allow_capped, allow_n}
use thunder_go.RateLimit.Gcra.{period, Enabled, allow_n-Enabled, allow_n-Effect}

-- The answer to a request whose slots cost `cost`, from the window, the time and the user's TAT.
unfoldable pub verdict : ℕ → ℕ → ℕ → ℕ → Verdict
verdict window cost now old =
    let next = max old now + cost in
    if ltb window (next - now)
    then record { allowed = false; retry_after = next - window - now }
    else record { allowed = true; retry_after = 0 }

pub verdict-allow_n :
    (now : ℕ) (l : Limiter) (user : ℤ) (c n : ℕ)
    → Enabled l c
    → n ≤ c
    → (allow_n now l user (pos (suc n))).0
      ≡ verdict l.window (period l c * suc n) now (tat_of l user)
unfolding verdict allow_capped decide
verdict-allow_n now l user c n e fits =
    rw (allow_n-Enabled now l user (pos (suc n)) c e) (ground arith)

-- A request for no more than the cap costs no more than the window.
cost-le-window : (w c n : ℕ) → n ≤ c → w / suc c * suc n ≤ w
cost-le-window w c n h = grind arith

exact_wait :
    (window cost now d old : ℕ)
    → cost ≤ window
    → (verdict window cost now old).allowed ≡ false
    → (verdict window cost (now + d) old).allowed ≡ leb (verdict window cost now old).retry_after d
unfolding verdict
exact_wait window cost now d old h refused = ground arith

-- With a limiter that is on, for a request of one slot at least and of no more slots than the cap:
-- the wait that a refusal advertises is exact. The same request, made alone `d` nanoseconds later, is
-- granted if and only if `d` is at least the advertised wait.
pub retry_after_exact :
    (now d : ℕ) (l : Limiter) (user : ℤ) (c n : ℕ)
    → Enabled l c
    → n ≤ c
    → (allow_n now l user (pos (suc n))).0.allowed ≡ false
    → (allow_n (now + d) (allow_n now l user (pos (suc n))).1 user (pos (suc n))).0.allowed
      ≡ leb (allow_n now l user (pos (suc n))).0.retry_after d
retry_after_exact now d l user c n e fits h =
    let (v, l') = allow_n now l user (pos (suc n)) in
    let f = allow_n-Effect now l user c (suc n) e in
    rw
      (
        verdict-allow_n (now + d) l' user c n (f.cap ∙ e) fits,
        f.refused h,
        f.window,
        verdict-allow_n now l user c n e fits,
      )
      (exact_wait l.window (period l c * suc n) now d (tat_of l user)
        (cost-le-window l.window c n fits)
        (ap (λ (w : Verdict). w.allowed) (sym (verdict-allow_n now l user c n e fits)) ∙ h))
