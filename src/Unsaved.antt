-- ===== src/Unsaved.antt =====
-- Leaving a form with unsaved changes: web/src/lib/admin/unsaved.ts,
-- web/src/components/admin/unsaved-changes.tsx and guarded-link.tsx beside it. A navigation that is
-- put off is its target. The browser's own prompt at the closing of a tab is left out.
pub mod Laws
mod Tests
use sahel.Common.{
  ℕ, Bool, true, false, not, ◌&&◌, ◌||◌, Option, none, some, List, [], ◌∷◌, ◌==◌, if◌then◌else◌,
}
use sahel.Common.Lists.{any, keep}
use sahel.Js.Text.{Text, codes, same, starts_with}

unfoldable pub needs_leave_prompt : Bool → Text → Bool
needs_leave_prompt dirty href = dirty && not (starts_with href (codes "#"))

-- A push of the router, or back past the entry that was parked.
pub data Go : Type 0 where
  push : (href : Text) → Go
  back : Go

pub record State : Type 0 where
  pub dirty_forms : List Text
  pub asking : Bool
  pub pending : Option Go
  pub leaving : Bool

abbrev pub initial_state : State
initial_state = record { dirty_forms = []; asking = false; pending = none; leaving = false }

unfoldable pub is_dirty : State → Bool
is_dirty s = elim s.dirty_forms [ [] ↦ false | f ∷ fs ↦ true ]

-- Adds or removes a form; the effect of becoming dirty takes back that one is leaving.
abbrev pub has_form : List Text → Text → Bool
has_form forms id = any (λ f. same f id) forms

abbrev pub change_forms : List Text → Text → Bool → List Text
change_forms forms id true = if has_form forms id then forms else id ∷ forms
change_forms forms id false = keep (λ f. not (same f id)) forms

abbrev pub noticed : Bool → State → State
noticed was s = if is_dirty s && not was then record s { leaving = false } else s

unfoldable pub set_dirty : Text → Bool → State → State
set_dirty id value s =
    noticed (is_dirty s) (record s { dirty_forms = change_forms s.dirty_forms id value })

-- What an event makes of the state, and where the browser goes.
unfoldable pub confirm_leave : Go → State → State × Option Go
confirm_leave go s =
    if is_dirty s then (record s { pending = some go; asking = true }, none) else (s, some go)

-- The browser's back button, while a form is dirty; otherwise there is no listener, and it goes.
unfoldable pub press_back : State → State × Option Go
press_back s =
    if not (is_dirty s)
    then (s, some back)
    else if s.leaving
    then (s, none)
    else (record s { pending = some back; asking = true }, none)

unfoldable pub stay : State → State
stay s = record s { pending = none; asking = false }

unfoldable pub leave : State → State × Option Go
leave s = (record { dirty_forms = []; asking = false; pending = none; leaving = true }, s.pending)

pub record Click : Type 0 where
  pub button : ℕ
  -- the control, meta, shift or alt key
  pub with_key : Bool
  pub new_tab : Bool
  pub prevented : Bool

-- A plain click of a guarded link; what is no plain click is left to the browser.
unfoldable pub click_link : Click → Text → State → State × Option Go
click_link c href s =
    if c.prevented || not ((c.button == 0) && not c.with_key && not c.new_tab)
    then (s, none)
    else if needs_leave_prompt (is_dirty s) href
    then confirm_leave (push href) s
    else (s, some (push href))

pub data Event : Type 0 where
  edits : (id : Text) (value : Bool) → Event
  clicks : (c : Click) (href : Text) → Event
  backs : Event
  stays : Event
  leaves : Event

-- The dialog's buttons are there only while it asks.
unfoldable pub next : State → Event → State × Option Go
next s (edits id value) = (set_dirty id value s, none)
next s (clicks c href) = click_link c href s
next s backs = press_back s
next s stays = (stay s, none)
next s leaves = if s.asking then leave s else (s, none)

-- The state after events, the last of which is the first of the list.
unfoldable pub after : List Event → State
after [] = initial_state
after (e ∷ events) = (next (after events) e).0
