-- ===== src/ManualBooking.antt =====
-- The form with which an admin books a stay for a guest:
-- web/src/app/[locale]/dashboard/bookings/new/manual-booking-form.tsx, the calendar in it,
-- web/src/components/admin/stay-picker.tsx, and its server action, actions.ts beside the form.
-- A handler takes the state to the next one. What the browser shows is left out.
pub mod Action
pub mod Steps
pub mod Price
mod Tests
use sahel.Common.{
  ℕ, ◌+◌, ◌*◌, Bool, true, false, not, ◌&&◌, ◌||◌, Option, none, some, List, [], ◌∷◌, ltb, ◌==◌,
  if◌then◌else◌,
}
use sahel.Common.Lists.{any, all}
use sahel.Common.Int.{ℤ, pos}
use sahel.Js.Text.{Text, codes, before, same, is_empty}
use sahel.Js.Digits.{is_digit, number, numeral}
use sahel.AdminTypes.{UnitRow}
use sahel.Money.{to_piasters, pounds_text}
use sahel.Calendar.{Range, range_select}
use sahel.StayPicker.{Taken, truthy, can_pick, next_taken}

pub record State : Type 0 where
  pub unit_id : Text
  pub range : Range
  pub taken : Taken
  pub loading_taken : Bool
  pub guests : Text
  pub phone : Text
  pub name : Text
  pub price : Text
  pub error : Option Text

-- What the page's URL asks for.
pub record Initial : Type 0 where
  pub unit : Option Text
  pub check_in : Option Text
  pub check_out : Option Text

-- units.find((u) => u.id === id)
unfoldable pub find_unit : Text → List UnitRow → Option UnitRow
find_unit id [] = none
find_unit id (u ∷ units) = if same u.id id then some u else find_unit id units

abbrev pub unit_id_of : Option Text → List UnitRow → Text
unit_id_of none units = []
unit_id_of (some id) units = if not (is_empty id) && any (λ u. same u.id id) units then id else []

-- A price of 0 is no price.
abbrev pub price_of : Option ℕ → Text
price_of none = []
price_of (some p) = if p == 0 then [] else pounds_text p

abbrev pub price_text : Option UnitRow → Text
price_text none = []
price_text (some u) = price_of u.nightly_price

unfoldable pub initial_state : List UnitRow → Initial → State
initial_state units init = record {
  unit_id = unit_id_of init.unit units;
  range = record { check_in = init.check_in; check_out = init.check_out };
  taken = [];
  loading_taken = false;
  guests = codes "2";
  phone = [];
  name = [];
  price = price_text (find_unit (unit_id_of init.unit units) units);
  error = none;
}

-- The effect of a change of the unit: no unit has no closed nights, and any other is asked for.
unfoldable pub load_taken : State → State
load_taken s =
    if is_empty s.unit_id then record s { taken = [] } else record s { loading_taken = true }

abbrev pub no_range : Range
no_range = record { check_in = none; check_out = none }

-- r.checkOut && limit && r.checkOut > limit
abbrev pub past_limit : Option Text → Option Text → Bool
past_limit none limit = false
past_limit (some check_out) none = false
past_limit (some check_out) (some limit) =
    not (is_empty check_out) && not (is_empty limit) && before limit check_out

-- A selection that the closed nights rule out is dropped, whole or its check-out.
abbrev pub revise_from : Text → Taken → Text → Range → Range
revise_from today taken check_in r =
    if is_empty check_in
    then r
    else if before check_in today || not (can_pick check_in none none taken)
    then no_range
    else if past_limit r.check_out (next_taken check_in taken)
    then record { check_in = some check_in; check_out = none }
    else r

abbrev pub revise_in : Text → Taken → Option Text → Range → Range
revise_in today taken none r = r
revise_in today taken (some check_in) r = revise_from today taken check_in r

unfoldable pub revise : Text → Taken → Range → Range
revise today taken r = revise_in today taken r.check_in r

-- The answer with the closed nights of the unit that is still chosen.
unfoldable pub taken_loaded : Text → Taken → State → State
taken_loaded today taken s = record s {
  taken = taken;
  range = revise today taken s.range;
  loading_taken = false;
}

unfoldable pub taken_failed : State → State
taken_failed s = record s { taken = []; loading_taken = false }

-- Whether the calendar lets one click a day.
unfoldable pub enabled : Text → State → Text → Bool
enabled today s d =
    not s.loading_taken
    && not (before d today)
    && can_pick d s.range.check_in s.range.check_out s.taken

-- A click on an enabled day.
unfoldable pub click_day : Text → State → State
click_day d s = record s { range = range_select s.range d }

-- Number(guests) > n; `over` answers for texts that are not all digits.
abbrev pub exceeds : (Text → ℕ → Bool) → Text → ℕ → Bool
exceeds over guests n = if all is_digit guests then ltb n (number guests) else over guests n

abbrev pub fit_guests : (Text → ℕ → Bool) → Option UnitRow → Text → Text
fit_guests over none guests = guests
fit_guests over (some u) guests =
    if exceeds over guests u.max_guests then numeral u.max_guests else guests

unfoldable pub choose_unit : (Text → ℕ → Bool) → List UnitRow → Text → State → State
choose_unit over units id s = record s {
  unit_id = id;
  price = price_text (find_unit id units);
  guests = fit_guests over (find_unit id units) s.guests;
}
