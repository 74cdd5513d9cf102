-- ===== src/TimelineGrid.antt =====
-- web/src/components/admin/timeline-grid.tsx: the clicks on the units timeline. A handler takes the
-- state to the next one; an answer of a server action is an input. What it looks like is left out,
-- as is the width of the screen but for the days that it leaves.
pub mod Page
pub mod Steps
mod Tests
use Prim.Native.Nat.{min}
use sahel.Common.{
  ℕ, Bool, true, false, not, ◌||◌, Option, none, some, List, [], ◌∷◌, map, if◌then◌else◌,
}
use sahel.Common.Int.{ℤ}
use sahel.Common.Lists.{any}
use sahel.Js.Text.{Text, codes, before, same, is_empty}
use sahel.AdminTypes.Timelines.{Timeline, TimelineUnit, TimelineBlock, TimelineBooking}
use sahel.Timeline.{Placement, Selection, day_range, selection, place}

pub record Start : Type 0 where
  pub unit_id : Text
  pub day : Text

pub record Pending : Type 0 where
  pub unit : TimelineUnit
  pub start : Text
  pub end : Text
  -- none is NaN
  pub nights : Option ℤ

pub record Open : Type 0 where
  pub unit : TimelineUnit
  pub block : TimelineBlock

pub record State : Type 0 where
  pub start : Option Start
  pub pending : Option Pending
  pub open_block : Option Open
  pub note : Text
  pub error : Option Text

abbrev pub initial_state : State
initial_state = record { start = none; pending = none; open_block = none; note = []; error = none }

-- Phones show a week at most.
unfoldable pub shown_count : Bool → Timeline → ℕ
shown_count phone timeline = if phone then min 7 timeline.days else timeline.days

unfoldable pub shown_days : (Text → Option ℤ) → Bool → Timeline → Option (List Text)
shown_days engine phone timeline = day_range engine timeline.start_day (shown_count phone timeline)

-- A day of the past is no button.
unfoldable pub is_button : Timeline → Text → Bool
is_button timeline d = not (before d timeline.today)

-- Escape drops a half-made selection.
unfoldable pub press_escape : State → State
press_escape s = record s { start = none }

abbrev pub pending_of : TimelineUnit → Option Selection → Option Pending → Option Pending
pending_of unit none old = old
pending_of unit (some x) old =
    some (record { unit = unit; start = x.start; end = x.end; nights = x.nights })

abbrev pub begin_at : TimelineUnit → Text → State → State
begin_at unit d s = record s { start = some (record { unit_id = unit.id; day = d }) }

module _ (engine : Text → Option ℤ) where
  -- `selection` throws on a text that is no date; what was set before it stays set.
  abbrev pub finish_at : TimelineUnit → Text → Text → State → State
  finish_at unit first d s = record s {
    start = none;
    note = [];
    error = none;
    pending = pending_of unit (selection engine first d) s.pending;
  }

  abbrev pub click_with : Option Start → TimelineUnit → Text → State → State
  click_with none unit d s = begin_at unit d s
  click_with (some first) unit d s =
      if same first.unit_id unit.id then finish_at unit first.day d s else begin_at unit d s

  unfoldable pub click_day : TimelineUnit → Text → State → State
  click_day unit d s = click_with s.start unit d s

unfoldable pub close_all : State → State
close_all s = record s { pending = none; open_block = none; error = none }

unfoldable pub click_block : TimelineUnit → TimelineBlock → State → State
click_block unit block s = record s {
  error = none;
  open_block = some (record { unit = unit; block = block });
}

unfoldable pub type_note : Text → State → State
type_note note s = record s { note = note }

abbrev pub error_codes : List Text
error_codes =
    codes "dates_taken" ∷ codes "overlaps_block" ∷ codes "invalid_range" ∷ codes "not_found" ∷ []

unfoldable pub error_text : Text → Text
error_text code = if any (same code) error_codes then code else codes "error"

-- What `saveBlock` calls createBlock with, and `unblock` deleteBlock.
pub record BlockCall : Type 0 where
  pub unit_id : Text
  pub start : Text
  pub end : Text
  pub note : Text

abbrev pub call_of : Text → Option Pending → Option BlockCall
call_of note none = none
call_of note (some p) =
    some (record { unit_id = p.unit.id; start = p.start; end = p.end; note = note })

unfoldable pub save_block : State → Option BlockCall
save_block s = call_of s.note s.pending

abbrev pub id_of_open : Option Open → Option Text
id_of_open none = none
id_of_open (some o) = some o.block.id

unfoldable pub unblock : State → Option Text
unblock s = id_of_open s.open_block

-- An error that is an empty text counts as none.
abbrev pub fail : Text → State → State
fail code s = record s { error = some (error_text code) }

unfoldable pub block_answered : Option Text → State → State
block_answered none s = close_all s
block_answered (some code) s = if is_empty code then close_all s else fail code s

unfoldable pub unblock_answered : Option Text → State → State
unblock_answered none s = close_all s
unblock_answered (some code) s =
    if is_empty code || same code (codes "not_found") then close_all s else fail code s

-- The bars of a unit: its bookings, and then its blocks, each with what `place` makes of it.
pub record Bars : Type 0 where
  pub bookings : List (TimelineBooking × Option (Option Placement))
  pub blocks : List (TimelineBlock × Option (Option Placement))

unfoldable pub bars : (Text → Option ℤ) → Bool → Timeline → TimelineUnit → Bars
bars engine phone timeline u =
    let count = shown_count phone timeline in
    record {
      bookings =
          map (λ b. (b, place engine b.check_in b.check_out timeline.start_day count)) u.bookings;
      blocks = map (λ k. (k, place engine k.start k.end timeline.start_day count)) u.blocks;
    }
