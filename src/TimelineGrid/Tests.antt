-- ===== src/TimelineGrid/Tests.antt =====
-- Two clicks on the timeline, and the theorem there.

use sahel.Common.{ℕ, ◌+◌, ◌≡◌, refl, true, false, Option, none, some, List, [], ◌∷◌, arith}
use sahel.Common.Int.{ℤ, ◌+ℤ◌}
use sahel.Js.Text.{Text, codes, before, same, is_empty}
use sahel.Js.Date.{dates}
use sahel.Js.Date.Days.{day_text}
use sahel.AdminTypes.Timelines.{Timeline, TimelineUnit}
use sahel.Timeline.{add_days, day_range, selection, nights_between}
use sahel.TimelineGrid.{
  State, initial_state, shown_count, shown_days, is_button, click_day, type_note, save_block,
  BlockCall, close_all, error_text, unblock_answered, press_escape, click_block, block_answered,
  unblock,
}
use sahel.TimelineGrid.Steps.{
  Reach, loaded, stepped, clicking, typing, IsNights, save_block-IsNights,
}

grid : Unit {0}
unfolding dates before same is_empty day_text add_days day_range selection nights_between ◌+ℤ◌
    shown_count shown_days is_button click_day type_note save_block close_all error_text
    unblock_answered press_escape click_block block_answered unblock
grid = tt

abbrev strict : Text → Option ℤ
strict s = none

abbrev june : ℕ
june = 103008398

abbrev unit : TimelineUnit
unit = record {
  id = codes "u1";
  slug = codes "chalet";
  title_ar = codes "";
  title_en = codes "Chalet";
  status = codes "active";
  compound_name_ar = codes "";
  compound_name_en = codes "Compound";
  bookings = [];
  blocks = [];
}

abbrev timeline : Timeline
timeline = record {
  start_day = codes "2027-06-01";
  days = 14;
  today = codes "2027-06-02";
  units = unit ∷ [];
}

abbrev days : List Text
days =
    codes "2027-06-01"
    ∷ codes "2027-06-02"
    ∷ codes "2027-06-03"
    ∷ codes "2027-06-04"
    ∷ codes "2027-06-05"
    ∷ codes "2027-06-06"
    ∷ codes "2027-06-07"
    ∷ []

abbrev begun : State
begun = click_day strict unit (codes "2027-06-05") initial_state

abbrev asked : State
asked = click_day strict unit (codes "2027-06-03") begun

abbrev noted : State
noted = type_note (codes "owner") asked

abbrev call : BlockCall
call = record {
  unit_id = codes "u1";
  start = codes "2027-06-03";
  end = codes "2027-06-06";
  note = codes "owner";
}

Reach-noted : Reach strict true timeline noted
unfolding grid
Reach-noted =
    stepped asked noted
      (stepped begun asked
        (stepped initial_state begun loaded
          (clicking unit (codes "2027-06-05") days initial_state refl refl refl))
        (clicking unit (codes "2027-06-03") days begun refl refl refl))
      (typing (codes "owner") asked)

runs :
    (is_button timeline (codes "2027-06-01") ≡ false)
    × (unblock_answered (some (codes "not_found")) noted ≡ close_all noted)
    × (error_text (codes "boom") ≡ codes "error")
unfolding grid
runs = (refl, refl, refl)

save_block-IsNights_example :
    IsNights strict true timeline june (june + 1) (codes "2027-06-03") (codes "2027-06-06")
unfolding grid
save_block-IsNights_example =
    save_block-IsNights strict true timeline june (june + 1) refl refl (omega arith) (omega arith)
      (omega arith) noted call Reach-noted refl
