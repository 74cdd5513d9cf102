-- ===== src/NavProgress.antt =====
-- web/src/components/ds/nav-progress.tsx: the bar from the start of a navigation until the new page
-- is rendered. Times are milliseconds; a timer is the time at which it goes off. The effect on the
-- bar's phase runs when the phase changes, and its cleanup takes back the timer that it set.
pub mod Laws
mod Tests
use sahel.Common.{
  ℕ, ◌+◌, Bool, true, false, not, ◌&&◌, ◌||◌, Option, none, some, List, [], ◌∷◌, leb, ◌==◌,
  if◌then◌else◌,
}
use sahel.Js.Text.{Text, codes, same, is_empty}

pub data Phase : Type 0 where
  idle : Phase
  loading : Phase
  done : Phase

pub record State : Type 0 where
  pub phase : Phase
  -- ends a navigation that never lands
  pub safety : Option ℕ
  -- fades the full bar out
  pub fade : Option ℕ

abbrev pub initial_state : State
initial_state = record { phase = idle; safety = none; fade = none }

-- setState("done"), with the effect of a bar that was not full before.
unfoldable pub finish : ℕ → State → State
finish now s = elim s.phase [
  | done ↦ s
  | _ ↦ record { phase = done; safety = none; fade = some (now + 400) }
]

-- Loading again only puts the safety timer off.
unfoldable pub start : ℕ → State → State
start now s = record { phase = loading; safety = some (now + 15000); fade = none }

unfoldable pub stop : State → State
stop s = elim s.phase [ loading ↦ record s { phase = idle } | _ ↦ s ]

-- The new route is rendered.
unfoldable pub landed : ℕ → State → State
landed now s = elim s.phase [ loading ↦ finish now s | _ ↦ s ]

abbrev pub is_due : ℕ → Option ℕ → Bool
is_due now none = false
is_due now (some time) = leb time now

abbrev pub fade_out : ℕ → State → State
fade_out now s =
    if is_due now s.fade then record { phase = idle; safety = s.safety; fade = none } else s

abbrev pub give_up : ℕ → State → State
give_up now s = if is_due now s.safety then finish now (record s { safety = none }) else s

-- The timers that are due go off.
unfoldable pub tick : ℕ → State → State
tick now s = give_up now (fade_out now s)

pub record Place : Type 0 where
  pub origin : Text
  pub pathname : Text
  pub search : Text

pub record Link : Type 0 where
  pub target : Text
  pub has_download : Bool
  pub place : Place

pub record Press : Type 0 where
  pub button : ℕ
  -- the meta, control, shift or alt key
  pub with_key : Bool
  -- the link in which the click is
  pub link : Option Link

abbrev pub leads_on : Place → Option Link → Bool
leads_on here none = false
leads_on here (some a) =
    (is_empty a.target || same a.target (codes "_self"))
    && not a.has_download
    && same a.place.origin here.origin
    && not (same a.place.pathname here.pathname && same a.place.search here.search)

-- onClick: a plain click on a link to another page of the site.
unfoldable pub starts_on_click : Place → Press → Bool
starts_on_click here p = (p.button == 0) && not p.with_key && leads_on here p.link

-- onSubmit: a form that navigates.
unfoldable pub starts_on_submit : Bool → Text → Bool
starts_on_submit is_prevented method = not is_prevented && same method (codes "get")

pub data Event : Type 0 where
  clicks : (here : Place) (press : Press) → Event
  submits : (is_prevented : Bool) (method : Text) → Event
  starts : Event
  stops : Event
  lands : Event
  ticks : Event

unfoldable pub next : ℕ → State → Event → State
next now s (clicks here press) = if starts_on_click here press then start now s else s
next now s (submits is_prevented method) =
    if starts_on_submit is_prevented method then start now s else s
next now s starts = start now s
next now s stops = stop s
next now s lands = landed now s
next now s ticks = tick now s
