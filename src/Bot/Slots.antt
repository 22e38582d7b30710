-- ===== src/Bot/Slots.antt =====
-- internal/bot/bot.go: `dispatch`, the slots of the handlers, and `Stop`. The goroutines share the
-- semaphore and the wait group, so what each does next is a step; a message is counted by where its
-- goroutine stands. A closed `stopCh` stays closed.
pub mod Drained
use thunder_go.Prelude.{
  ℕ, zero, suc, ◌+◌, ◌-◌, ◌*◌, ◌/◌, ◌%◌, ◌^◌, ◌≤◌, ◌<◌, min, max, ◌≡◌, refl, sym, ap, ◌∙◌, subst,
  ◌≢◌, ◌↔◌, ◌⊎◌, inl, inr, Bool, true, false, not, ◌&&◌, ◌||◌, Option, none, some, List, [], ◌∷◌,
  ◌++◌, map, append-nil, append_assoc, arith, length, get_elem?, set, take, drop, length-append,
  length-take, length-drop, All, All-append, All-map, All_at, get_elem?-append,
  get_elem?-append_length, ltb, leb, ◌==◌, if◌then◌else◌, tests, leb→le, le→leb, leb-false→lt,
  ltb→lt, lt→ltb, ltb-false→le, Bool-cases, Option-cases,
}

pub record Slots : Type 0 where
  -- the calls of `dispatch` before the first select, and those before the second
  pub checking : ℕ
  pub acquiring : ℕ
  -- the handlers that hold a slot, and those that have given it back
  pub handling : ℕ
  pub ending : ℕ
  -- the wait group, and whether `stopCh` is closed
  pub handler_wg : ℕ
  pub stopped : Bool

abbrev pub max_slots : ℕ
max_slots = 128

unfoldable pub new_slots : Slots
new_slots = record {
  checking = 0;
  acquiring = 0;
  handling = 0;
  ending = 0;
  handler_wg = 0;
  stopped = false;
}

-- A message comes in: `handlerWg.Add(1)`.
unfoldable pub arrive : Slots → Slots
arrive s = record s { checking = s.checking + 1; handler_wg = s.handler_wg + 1 }

-- The first select: the message is dropped if the bot has stopped.
unfoldable pub check : Slots → Option Slots
check s =
    if s.checking == 0
    then none
    else if s.stopped
    then some (record s { checking = s.checking - 1; handler_wg = s.handler_wg - 1 })
    else some (record s { checking = s.checking - 1; acquiring = s.acquiring + 1 })

-- The second select, if it takes a slot and if it finds `stopCh` closed.
unfoldable pub take_slot : Slots → Option Slots
take_slot s =
    if s.acquiring == 0 || leb max_slots s.handling
    then none
    else some (record s { acquiring = s.acquiring - 1; handling = s.handling + 1 })

unfoldable pub give_up : Slots → Option Slots
give_up s =
    if s.acquiring == 0 || not s.stopped
    then none
    else some (record s { acquiring = s.acquiring - 1; handler_wg = s.handler_wg - 1 })

-- The deferred calls, after `dispatchAsync`: the slot first, then the wait group.
unfoldable pub give_back : Slots → Option Slots
give_back s =
    if s.handling == 0
    then none
    else some (record s { handling = s.handling - 1; ending = s.ending + 1 })

unfoldable pub finish : Slots → Option Slots
finish s =
    if s.ending == 0
    then none
    else some (record s { ending = s.ending - 1; handler_wg = s.handler_wg - 1 })

-- `Stop` before `handlerWg.Wait`, which returns once the wait group is at zero.
unfoldable pub stop : Slots → Slots
stop s = record s { stopped = true }
