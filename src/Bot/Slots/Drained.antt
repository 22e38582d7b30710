-- ===== src/Bot/Slots/Drained.antt =====
-- internal/bot/bot.go: the handlers in flight, and the wait of `Stop`.
use thunder_go.Prelude.{
  ℕ, zero, suc, ◌+◌, ◌-◌, ◌*◌, ◌≤◌, ◌<◌, ◌≡◌, refl, ◌⊎◌, inl, inr, true, false, some, arith, ◌==◌,
}
use thunder_go.Bot.Slots.{
  Slots, max_slots, new_slots, arrive, check, take_slot, give_up, give_back, finish, stop,
}

pub data Step (s : Slots) (t : Slots) : Type 0 where
  arrives : t ≡ arrive s → Step s t
  checks : check s ≡ some t → Step s t
  takes : take_slot s ≡ some t → Step s t
  gives_up : give_up s ≡ some t → Step s t
  gives_back : give_back s ≡ some t → Step s t
  finishes : finish s ≡ some t → Step s t
  stops : t ≡ stop s → Step s t

pub data Reach : Slots → Type 0 where
  here : Reach new_slots
  next : {s t : Slots} → Reach s → Step s t → Reach t

-- At most 128 handlers hold a slot, and the wait group counts every message that is not done with.
abbrev pub IsCounted : Slots → Type 0
IsCounted s =
    (s.handling ≤ max_slots) × (s.handler_wg ≡ s.checking + s.acquiring + s.handling + s.ending)

Step-IsCounted : (s t : Slots) → Step s t → IsCounted s → IsCounted t
unfolding arrive check take_slot give_up give_back finish stop
Step-IsCounted s t (arrives e) h = ground arith
Step-IsCounted s t (checks e) h = ground arith
Step-IsCounted s t (takes e) h = ground arith
Step-IsCounted s t (gives_up e) h = ground arith
Step-IsCounted s t (gives_back e) h = ground arith
Step-IsCounted s t (finishes e) h = ground arith
Step-IsCounted s t (stops e) h = ground arith

Reach-IsCounted : {s : Slots} → Reach s → IsCounted s
unfolding new_slots
Reach-IsCounted here = (omega arith, refl)
Reach-IsCounted (next r st) = Step-IsCounted _ _ st (Reach-IsCounted r)

-- So many steps of the messages that are there, with no new one.
pub data Drains : ℕ → Slots → Slots → Type 0 where
  drained : {s : Slots} → Drains zero s s
  checked : {n : ℕ} {s t u : Slots} → check s ≡ some t → Drains n t u → Drains (suc n) s u
  gave_up : {n : ℕ} {s t u : Slots} → give_up s ≡ some t → Drains n t u → Drains (suc n) s u
  gave_back : {n : ℕ} {s t u : Slots} → give_back s ≡ some t → Drains n t u → Drains (suc n) s u
  finished : {n : ℕ} {s t u : Slots} → finish s ≡ some t → Drains n t u → Drains (suc n) s u

-- What there is to do for the messages that are there.
abbrev pub work : Slots → ℕ
work s = s.checking + s.acquiring + 2 * s.handling + s.ending

-- Something is left to do at one of the four places.
where_left :
    (s : Slots) (n : ℕ)
    → work s ≡ suc n
    → (0 < s.checking) ⊎ ((0 < s.acquiring) ⊎ ((0 < s.handling) ⊎ (0 < s.ending)))
where_left s n e = ground arith

zero_test : (n : ℕ) → 0 < n → (n == 0) ≡ false
zero_test n h = ground arith

check-stopped :
    (s : Slots)
    → s.stopped ≡ true
    → 0 < s.checking
    → check s ≡ some (record s { checking = s.checking - 1; handler_wg = s.handler_wg - 1 })
unfolding check
check-stopped s h k = ground arith

give_up-stopped :
    (s : Slots)
    → s.stopped ≡ true
    → 0 < s.acquiring
    → give_up s ≡ some (record s { acquiring = s.acquiring - 1; handler_wg = s.handler_wg - 1 })
unfolding give_up
give_up-stopped s h k = ground arith

give_back-held :
    (s : Slots)
    → 0 < s.handling
    → give_back s ≡ some (record s { handling = s.handling - 1; ending = s.ending + 1 })
unfolding give_back
give_back-held s k = ground arith

finish-ending :
    (s : Slots)
    → 0 < s.ending
    → finish s ≡ some (record s { ending = s.ending - 1; handler_wg = s.handler_wg - 1 })
unfolding finish
finish-ending s k = ground arith

drain_all :
    (n : ℕ) (s : Slots)
    → s.stopped ≡ true
    → s.handler_wg ≡ s.checking + s.acquiring + s.handling + s.ending
    → work s ≡ n
    → (t : Slots) × (Drains n s t) × (t.handler_wg ≡ 0)
drain_all zero s h c e = (s, drained, omega (arith, c, e))
drain_all (suc n) s h c e = elim (where_left s n e) [
  | inl k ↦
      let (t, rest, end) =
        drain_all n (record s { checking = s.checking - 1; handler_wg = s.handler_wg - 1 }) h
          (omega (arith, c, k)) (omega (arith, e, k)) in
      (t, checked (check-stopped s h k) rest, end)
  | inr (inl k) ↦
      let (t, rest, end) =
        drain_all n (record s { acquiring = s.acquiring - 1; handler_wg = s.handler_wg - 1 }) h
          (omega (arith, c, k)) (omega (arith, e, k)) in
      (t, gave_up (give_up-stopped s h k) rest, end)
  | inr (inr (inl k)) ↦
      let (t, rest, end) =
        drain_all n (record s { handling = s.handling - 1; ending = s.ending + 1 }) h
          (omega (arith, c, k)) (omega (arith, e, k)) in
      (t, gave_back (give_back-held s k) rest, end)
  | inr (inr (inr k)) ↦
      let (t, rest, end) =
        drain_all n (record s { ending = s.ending - 1; handler_wg = s.handler_wg - 1 }) h
          (omega (arith, c, k)) (omega (arith, e, k)) in
      (t, finished (finish-ending s k) rest, end)
]

-- In every state that the bot reaches, at most 128 handlers hold a slot, the wait group is the
-- number of messages that are not done with, and, if `Stop` has been called, the messages that are
-- there can all go on to their end, a step each or two for a handler that holds a slot, after which
-- the wait of `Stop` is over.
pub Reach-Drains :
    {s : Slots}
    → Reach s
    → IsCounted s × (s.stopped ≡ true → (t : Slots) × (Drains (work s) s t) × (t.handler_wg ≡ 0))
Reach-Drains {s} r = let c = Reach-IsCounted r in (c, λ h. drain_all (work s) s h c.1 refl)
