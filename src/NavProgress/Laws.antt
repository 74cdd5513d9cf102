-- ===== src/NavProgress/Laws.antt =====
-- The bar comes to an end.
use sahel.Common.{
  ℕ, ◌+◌, ◌≤◌, ◌≡◌, refl, inl, inr, Bool, true, false, Option, none, some, leb, arith, Bool-cases,
  if◌then◌else◌,
}
use sahel.NavProgress.{
  idle, loading, done, State, initial_state, finish, start, stop, landed, tick, Event, clicks,
  submits, starts, stops, lands, ticks, starts_on_click, starts_on_submit, next,
}

-- The states that events at times in order reach, with the time of the last event.
pub data Reach : ℕ → State → Type 0 where
  begun : Reach 0 initial_state
  moved :
      (before now : ℕ) (s : State) (e : Event)
      → Reach before s
      → before ≤ now
      → Reach now (next now s e)

-- A timer that is set goes off in time.
abbrev pub IsWithin : ℕ → Option ℕ → Type 0
IsWithin time none = Unit
IsWithin time (some t) = t ≤ time

-- The shapes of a state: which timers are set, and until when.
pub data IsSound : ℕ → State → Type 0 where
  at_rest :
      (now : ℕ) (safety : Option ℕ)
      → IsWithin (now + 15000) safety
      → IsSound now (record { phase = idle; safety = safety; fade = none })
  under_way :
      (now t : ℕ)
      → t ≤ now + 15000
      → IsSound now (record { phase = loading; safety = some t; fade = none })
  fading :
      (now t : ℕ)
      → t ≤ now + 400
      → IsSound now (record { phase = done; safety = none; fade = some t })

IsWithin-le : (a b : ℕ) (t : Option ℕ) → a ≤ b → IsWithin (a + 15000) t → IsWithin (b + 15000) t
IsWithin-le a b none h w = tt
IsWithin-le a b (some t) h w = omega (arith, h, w)

-- Time alone keeps a state sound.
IsSound-le : (a b : ℕ) (s : State) → a ≤ b → IsSound a s → IsSound b s
IsSound-le a b s h (at_rest _ safety w) = at_rest b safety (IsWithin-le a b safety h w)
IsSound-le a b s h (under_way _ t w) = under_way b t (omega (arith, h, w))
IsSound-le a b s h (fading _ t w) = fading b t (omega (arith, h, w))

start-IsSound : (now : ℕ) (s : State) → IsSound now (start now s)
unfolding start
start-IsSound now s = under_way now (now + 15000) (omega arith)

finish-IsSound : (now : ℕ) (s : State) → IsSound now s → IsSound now (finish now s)
unfolding finish
finish-IsSound now s (at_rest _ safety w) = fading now (now + 400) (omega arith)
finish-IsSound now s (under_way _ t w) = fading now (now + 400) (omega arith)
finish-IsSound now s (fading _ t w) = fading now t w

stop-IsSound : (now : ℕ) (s : State) → IsSound now s → IsSound now (stop s)
unfolding stop
stop-IsSound now s (at_rest _ safety w) = at_rest now safety w
stop-IsSound now s (under_way _ t w) = at_rest now (some t) w
stop-IsSound now s (fading _ t w) = fading now t w

landed-IsSound : (now : ℕ) (s : State) → IsSound now s → IsSound now (landed now s)
unfolding landed finish
landed-IsSound now s (at_rest _ safety w) = at_rest now safety w
landed-IsSound now s (under_way _ t w) = fading now (now + 400) (omega arith)
landed-IsSound now s (fading _ t w) = fading now t w

tick-IsSound : (now : ℕ) (s : State) → IsSound now s → IsSound now (tick now s)
unfolding tick finish
tick-IsSound now s (at_rest _ none w) = at_rest now none tt
tick-IsSound now s (at_rest _ (some t) w) = elim (Bool-cases (leb t now)) [
  | inl e ↦ rw e (fading now (now + 400) (omega arith))
  | inr e ↦ rw e (at_rest now (some t) w)
]
tick-IsSound now s (under_way _ t w) = elim (Bool-cases (leb t now)) [
  | inl e ↦ rw e (fading now (now + 400) (omega arith))
  | inr e ↦ rw e (under_way now t w)
]
tick-IsSound now s (fading _ t w) = elim (Bool-cases (leb t now)) [
  | inl e ↦ rw e (at_rest now none tt)
  | inr e ↦ rw e (fading now t w)
]

started :
    (now : ℕ) (b : Bool) (s : State) → IsSound now s → IsSound now (if b then start now s else s)
started now true s h = start-IsSound now s
started now false s h = h

next-IsSound : (now : ℕ) (s : State) (e : Event) → IsSound now s → IsSound now (next now s e)
unfolding next
next-IsSound now s (clicks here press) h = started now (starts_on_click here press) s h
next-IsSound now s (submits prevented method) h =
    started now (starts_on_submit prevented method) s h
next-IsSound now s starts h = start-IsSound now s
next-IsSound now s stops h = stop-IsSound now s h
next-IsSound now s lands h = landed-IsSound now s h
next-IsSound now s ticks h = tick-IsSound now s h

Reach-IsSound_lem : (now : ℕ) (s : State) → Reach now s → IsSound now s
Reach-IsSound_lem now s begun = at_rest 0 none tt
Reach-IsSound_lem now s (moved before _ t e r h) =
    next-IsSound now t e (IsSound-le before now t h (Reach-IsSound_lem before t r))

-- Two timers at most have to go off.
ended :
    (now later : ℕ) (s : State)
    → now + 15000 ≤ later
    → IsSound now s
    → tick (later + 400) (tick later s) ≡ initial_state
unfolding tick finish
ended now later s h (at_rest _ none w) = refl
ended now later s h (at_rest _ (some t) w) = ground (arith, h, w)
ended now later s h (under_way _ t w) = ground (arith, h, w)
ended now later s h (fading _ t w) = ground (arith, h, w)

-- The bar always ends: from any state that events at times in order reach, going off at 15 seconds
-- after the last event or later, and 400 milliseconds after that, puts the bar at rest with no
-- timer set.
pub tick-tick :
    (now later : ℕ) (s : State)
    → Reach now s
    → now + 15000 ≤ later
    → tick (later + 400) (tick later s) ≡ initial_state
tick-tick now later s r h = ended now later s h (Reach-IsSound_lem now s r)

-- A navigation that is called off leaves the safety timer set.
tick-stop-start : (now : ℕ) (s : State) → (tick (now + 15000) (stop (start now s))).phase ≡ done
unfolding tick finish stop start
tick-stop-start now s = ground arith
