-- ===== src/StayPicker.antt =====
-- web/src/lib/admin/stay-picker.ts: which days the calendar of a manual booking lets one pick.
-- Days are texts and are compared as texts, as in the source; `null` and `undefined` are `none`.
pub mod Picks
pub mod Stays
pub mod View
mod Tests
use sahel.Common.{
  Bool, true, false, not, ◌&&◌, ◌||◌, Option, none, some, List, [], ◌∷◌, if◌then◌else◌,
}
use sahel.Common.Lists.{any}
use sahel.Js.Text.{Text, before, at_most, is_empty}

pub record Nights : Type 0 where
  pub start : Text
  pub end : Text

abbrev pub Taken : Type 0
Taken = List Nights

-- The truth value of an optional string.
abbrev pub truthy : Option Text → Bool
truthy none = false
truthy (some s) = not (is_empty s)

unfoldable pub holds : Text → Nights → Bool
holds day r = at_most r.start day && before day r.end

unfoldable pub is_taken : Text → Taken → Bool
unfolding holds
is_taken day taken = any (holds day) taken

unfoldable pub hit : Text → Nights → Option Text
hit day r = if before day r.end then some (if before day r.start then r.start else day) else none

abbrev pub sooner : Option Text → Option Text → Bool
sooner none first = false
sooner (some h) none = true
sooner (some h) (some f) = before h f

-- One round of the loop of `nextTaken`.
unfoldable pub keep_first : Option Text → Option Text → Option Text
keep_first h first = if truthy h && (not (truthy first) || sooner h first) then h else first

unfoldable pub next_from : Text → Taken → Option Text → Option Text
next_from day [] first = first
next_from day (r ∷ taken) first = next_from day taken (keep_first (hit day r) first)

unfoldable pub next_taken : Text → Taken → Option Text
next_taken day taken = next_from day taken none

abbrev pub within : Text → Option Text → Bool
within day none = true
within day (some limit) = is_empty limit || at_most day limit

-- With a check-in and no check-out yet.
abbrev pub can_end : Text → Text → Taken → Bool
can_end day check_in taken =
    if at_most day check_in
    then not (is_taken day taken)
    else within day (next_taken check_in taken)

unfoldable pub can_pick : Text → Option Text → Option Text → Taken → Bool
can_pick day none check_out taken = not (is_taken day taken)
can_pick day (some check_in) check_out taken =
    if is_empty check_in || truthy check_out
    then not (is_taken day taken)
    else can_end day check_in taken
