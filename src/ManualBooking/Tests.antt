-- ===== src/ManualBooking/Tests.antt =====
-- The manual booking form on concrete input, and its theorems there.
use sahel.Common.{ℕ, ◌≡◌, refl, Bool, false, Option, none, some, List, [], ◌∷◌}
use sahel.Common.Int.{ℤ, pos}
use sahel.Js.Text.{Text, codes, before, same, is_empty}
use sahel.Js.Text.Trim.{is_space}
use sahel.Js.Digits.{is_digit, number_from, numeral, digits, pad2}
use sahel.Js.Date.{dates}
use sahel.Money.{
  to_latin, to_dot, is_grouping, clean, span_digits, fraction, to_piasters, pounds, pounds_text,
}
use sahel.Calendar.{range_select}
use sahel.StayPicker.{Taken, is_taken, next_taken, can_pick, hit, keep_first, next_from}
use sahel.StayPicker.Stays.{FreeBetween}
use sahel.AdminTypes.{UnitRow}
use sahel.ManualBooking.{
  State, Initial, find_unit, initial_state, choose_unit, load_taken, taken_loaded, revise, enabled,
  click_day,
}
use sahel.ManualBooking.Steps.{
  Reach, opened, stepped, choosing, loading, answered, clicking, IsSound, Reach-IsSound,
}
use sahel.ManualBooking.Action.{
  ManualBookingInput, calls, request, opens, submit, create_manual_booking, reply_of, booking_of,
  nights, total,
}
use sahel.ManualBooking.Price.{request-FreeBetween}
use sahel.Timeline.{nights_between}
use sahel.Api.{returned}

form : Unit {0}
unfolding dates is_empty before same is_space is_digit number_from numeral digits pad2 to_latin
    to_dot is_grouping clean span_digits fraction to_piasters pounds pounds_text range_select
    is_taken next_taken can_pick hit keep_first next_from find_unit initial_state choose_unit
    load_taken taken_loaded revise enabled click_day request submit create_manual_booking reply_of
    booking_of nights total nights_between
form = tt

abbrev chalet : UnitRow
chalet = record {
  id = codes "u1";
  compound_id = codes "c1";
  slug = codes "chalet";
  title_ar = codes "";
  title_en = codes "Chalet";
  kind = codes "chalet";
  status = codes "active";
  bedrooms = 2;
  max_guests = 4;
  sea_distance_m = 50;
  updated_at = codes "2027-06-01";
  nightly_price = some 150050;
  compound_name_ar = codes "";
  compound_name_en = codes "Compound";
  owner_name = codes "Owner";
  cover_url = none;
}

abbrev units : List UnitRow
units = chalet ∷ []

abbrev over : Text → ℕ → Bool
over s n = false

abbrev to_number : Text → Option ℤ
to_number s = none

abbrev strict : Text → Option ℤ
strict s = none

abbrev today : Text
today = codes "2027-06-01"

abbrev taken : Taken
taken = record { start = codes "2027-06-10"; end = codes "2027-06-14" } ∷ []

abbrev blank : Initial
blank = record { unit = none; check_in = none; check_out = none }

abbrev first_state : State
first_state = initial_state units blank

abbrev chosen : State
chosen = choose_unit over units (codes "u1") first_state

abbrev asked : State
asked = load_taken chosen

abbrev shown : State
shown = taken_loaded today taken asked

abbrev arrived : State
arrived = click_day (codes "2027-06-07") shown

abbrev ready : State
ready = click_day (codes "2027-06-10") arrived

abbrev input : ManualBookingInput
input = record {
  unit_id = codes "u1";
  check_in = codes "2027-06-07";
  check_out = codes "2027-06-10";
  guests = some (pos 2);
  phone = [];
  name = [];
  nightly_price = 150050;
}

runs :
    (request to_number ready ≡ calls input)
    × (total strict ready ≡ some 450150)
    × (enabled today arrived (codes "2027-06-11") ≡ false)
    × (submit to_number (create_manual_booking (λ b. returned (some (codes "b1")))) ready
        ≡ opens (codes "/dashboard/bookings/b1"))
unfolding form
runs = (refl, refl, refl, refl)

Reach-ready : Reach over units today ready
unfolding form
Reach-ready =
    stepped arrived ready
      (stepped shown arrived
        (stepped asked shown
          (stepped chosen asked
            (stepped first_state chosen (opened blank) (choosing (codes "u1") first_state))
            (loading chosen))
          (answered taken asked (refl, tt)))
        (clicking (codes "2027-06-07") shown refl))
      (clicking (codes "2027-06-10") arrived refl)

reach-IsSound_example : IsSound ready
reach-IsSound_example = Reach-IsSound over units today ready Reach-ready

request-FreeBetween_example : FreeBetween ready.taken (codes "2027-06-07") (codes "2027-06-10")
unfolding form
request-FreeBetween_example =
    request-FreeBetween to_number over units today ready input Reach-ready refl

-- June 7th 2027.
abbrev june_7 : ℕ
june_7 = 103008404
