-- ===== src/ManualBooking/Steps.antt =====
-- The states that the manual booking form can reach, and the nights between its chosen days.
use sahel.Common.{
  ℕ, ◌≡◌, refl, inl, inr, Bool, true, false, not, ◌&&◌, ◌||◌, Option, none, some, List, [], arith,
  Bool-cases,
}
use sahel.Js.Text.{Text, before, same, is_empty}
use sahel.Calendar.{Range, range_select, second_pick, pick}
use sahel.StayPicker.{Taken, truthy, is_taken, can_pick, next_taken, within}
use sahel.StayPicker.Picks.{IsWellFormed}
use sahel.StayPicker.Stays.{FreeBetween, can_pick_iff, within-FreeBetween}
use sahel.AdminTypes.{UnitRow}
use sahel.ManualBooking.{
  State, Initial, initial_state, load_taken, past_limit, revise, revise_in, taken_loaded,
  taken_failed, enabled, click_day, choose_unit,
}

module _ (over : Text → ℕ → Bool) (units : List UnitRow) (today : Text) where
  -- What can happen to the form. Each closed range of an answer has a night, as the API promises.
  pub data Step : State → State → Type 0 where
    choosing : (id : Text) (s : State) → Step s (choose_unit over units id s)
    loading : (s : State) → Step s (load_taken s)
    answered :
        (taken : Taken) (s : State) → IsWellFormed taken → Step s (taken_loaded today taken s)
    failed : (s : State) → Step s (taken_failed s)
    clicking : (d : Text) (s : State) → enabled today s d ≡ true → Step s (click_day d s)

  pub data Reach : State → Type 0 where
    opened : (init : Initial) → Reach (initial_state units init)
    stepped : (s t : State) → Reach s → Step s t → Reach t

-- The nights between a chosen check-in and a chosen check-out are free of what the form knows to be
-- closed.
abbrev pub IsFree : Taken → Option Text → Option Text → Type 0
IsFree taken none check_out = Unit
IsFree taken (some c) none = Unit
IsFree taken (some c) (some d) = is_empty c ≡ false → is_empty d ≡ false → FreeBetween taken c d

abbrev pub IsSound : State → Type 0
IsSound s = IsWellFormed s.taken × IsFree s.taken s.range.check_in s.range.check_out

nothing_taken : (check_in check_out : Option Text) → IsFree [] check_in check_out
unfolding is_taken
nothing_taken none check_out = tt
nothing_taken (some c) none = tt
nothing_taken (some c) (some d) = λ _ _ x _ _. refl

module _ (taken : Taken) (w : IsWellFormed taken) where
  within_limit :
      (c d : Text) (limit : Option Text)
      → is_empty d ≡ false
      → past_limit (some d) limit ≡ false
      → within d limit ≡ true
  within_limit c d none full h = refl
  within_limit c d (some l) full h = ground arith

  kept-IsFree :
      (c : Text) (check_out : Option Text)
      → past_limit check_out (next_taken c taken) ≡ false
      → IsFree taken (some c) check_out
  kept-IsFree c none h = tt
  kept-IsFree c (some d) h = λ full_c full_d.
      within-FreeBetween taken w c full_c d (within_limit c d (next_taken c taken) full_d h)

  empty-IsFree :
      (c : Text) (check_out : Option Text) → is_empty c ≡ true → IsFree taken (some c) check_out
  empty-IsFree c none h = tt
  empty-IsFree c (some d) h = λ full_c. absurd (cc)

  revised :
      (today : Text) (check_in : Option Text) (r : Range)
      → r.check_in ≡ check_in
      → IsFree taken
          (revise_in today taken check_in r).check_in
          (revise_in today taken check_in r).check_out
  revised today none r e = rw e tt
  revised today (some c) r e = elim (Bool-cases (is_empty c)) [
    | inl blank ↦ rw (blank, e) (empty-IsFree c r.check_out blank)
    | inr full ↦ elim (Bool-cases (before c today || not (can_pick c none none taken))) [
      | inl gone ↦ rw (full, gone) tt
      | inr there ↦ elim (Bool-cases (past_limit r.check_out (next_taken c taken))) [
        | inl past ↦ rw (full, there, past) tt
        | inr fits ↦ rw (full, there, fits, e) (kept-IsFree c r.check_out fits)
      ]
    ]
  ]

  second :
      (d c : Text) (check_out : Option Text)
      → can_pick d (some c) check_out taken ≡ true
      → is_empty c ≡ false
      → truthy check_out ≡ false
      → IsFree taken (second_pick c d).check_in (second_pick c d).check_out
  second d c check_out h full waits = elim (Bool-cases (same d c)) [
    | inl again ↦ rw again tt
    | inr other ↦ elim (Bool-cases (before c d)) [
      | inr sooner ↦ rw (other, sooner) tt
      | inl later ↦
          rw (other, later) (λ _ _. (can_pick_iff taken w c full d check_out waits later).0 h)
    ]
  ]

  picked :
      (d : Text) (check_in check_out : Option Text)
      → can_pick d check_in check_out taken ≡ true
      → IsFree taken (pick check_in check_out d).check_in (pick check_in check_out d).check_out
  picked d none check_out h = tt
  picked d (some c) check_out h = elim (Bool-cases (not (is_empty c) && not (truthy check_out))) [
    | inr settled ↦ rw settled tt
    | inl waiting ↦ rw waiting (second d c check_out h (ground arith) (ground arith))
  ]

module _ (over : Text → ℕ → Bool) (units : List UnitRow) (today : Text) where
  Step-IsSound : (s t : State) → Step over units today s t → IsSound s → IsSound t
  unfolding choose_unit load_taken taken_loaded revise taken_failed enabled click_day range_select
  Step-IsSound s _ (choosing id _) sound = sound
  Step-IsSound s _ (loading _) (w, free) = elim (Bool-cases (is_empty s.unit_id)) [
    | inl e ↦ rw e (tt, nothing_taken s.range.check_in s.range.check_out)
    | inr e ↦ rw e (w, free)
  ]
  Step-IsSound s _ (answered taken _ fits) sound =
      (fits, revised taken fits today s.range.check_in s.range refl)
  Step-IsSound s _ (failed _) sound = (tt, nothing_taken s.range.check_in s.range.check_out)
  Step-IsSound s _ (clicking d _ on) (w, free) =
      (w, picked s.taken w d s.range.check_in s.range.check_out (ground arith))

  opened-IsSound : (init : Initial) → IsSound (initial_state units init)
  unfolding initial_state
  opened-IsSound init = (tt, nothing_taken init.check_in init.check_out)

  -- In every state that the manual booking form can reach, in whatever order units are chosen,
  -- answers with ranges of at least one night come or fail, and enabled days are clicked, the
  -- known closed ranges have a night each, and the nights from a chosen check-in to a chosen
  -- check-out are free of them.
  pub Reach-IsSound : (s : State) → Reach over units today s → IsSound s
  Reach-IsSound s (opened init) = opened-IsSound init
  Reach-IsSound t (stepped s _ r step) = Step-IsSound s t step (Reach-IsSound s r)
