-- ===== src/StayPlanner.antt =====
-- web/src/app/[locale]/(public)/unit/[slug]/stay-planner.tsx: choosing the dates of a stay, with
-- the price that the API quotes. The framework runs the server actions of a page one after the
-- other, so that the requests that wait for an answer are a queue. Labels are left out.
pub mod Days
pub mod Steps
mod Tests
use Prim.Native.Nat.{min}
use sahel.Common.{
  ℕ, suc, Bool, true, false, not, ◌&&◌, ◌||◌, Option, none, some, List, [], ◌∷◌, ◌++◌, ltb, leb,
  ◌==◌, if◌then◌else◌,
}
use sahel.Common.Int.{ℤ, pos, negsuc}
use sahel.Common.Lists.{take, drop}
use sahel.Js.Text.{Text, codes, before, same, is_empty}
use sahel.Js.Digits.{numeral, number, pad2}
use sahel.Calendar
use sahel.Calendar.{Month, Range, add_months, range_select, nights_between}
use sahel.PublicTypes.{
  AvailabilityDay, DayState, free, blocked, past, QuoteBreakdown, QuoteResult, priced, refused,
}
use sahel.StayPicker.{truthy}
use sahel.Timeline.{◌>>=◌}

-- A call of quoteStay for the unit.
pub record Request : Type 0 where
  pub check_in : Text
  pub check_out : Text
  pub guests : ℕ

pub record Load : Type 0 where
  pub from : Text
  pub to : Text

pub record State : Type 0 where
  pub view : Month
  pub days : List AvailabilityDay
  pub range : Range
  pub guests : ℕ
  pub quote : Option QuoteResult
  -- the quotes and the months that are waited for, oldest first
  pub quoting : List Request
  pub loading : List Load
  pub booking : Bool

-- The month of a date that starts YYYY-MM.
abbrev pub first_month : Text → Month
first_month today = record {
  year = pos (number (take 4 today));
  month = number (take 2 (drop 5 today));
}

-- The days by their dates: a date that is there keeps its place and takes the new day.
unfoldable pub set_day : List AvailabilityDay → AvailabilityDay → List AvailabilityDay
set_day [] day = day ∷ []
set_day (d ∷ days) day =
    let rest = set_day days day in if same d.date day.date then day ∷ days else d ∷ rest

unfoldable pub set_days : List AvailabilityDay → List AvailabilityDay → List AvailabilityDay
set_days days [] = days
set_days days (d ∷ more) = set_days (set_day days d) more

unfoldable pub initial_state : Text → List AvailabilityDay → ℕ → State
initial_state today days max_guests = record {
  view = first_month today;
  days = set_days [] days;
  range = record { check_in = none; check_out = none };
  guests = min 2 max_guests;
  quote = none;
  quoting = [];
  loading = [];
  booking = false;
}

unfoldable pub find_day : List AvailabilityDay → Text → Option AvailabilityDay
find_day [] date = none
find_day (d ∷ days) date = if same d.date date then some d else find_day days date

abbrev pub has_day : List AvailabilityDay → Text → Bool
has_day days date = elim (find_day days date) [ none ↦ false | some d ↦ true ]

abbrev pub year_text : ℤ → Text
year_text (pos n) = numeral n
year_text (negsuc n) = b'-' ∷ numeral (suc n)

unfoldable pub month_start : Month → Text
month_start m = year_text m.year ++ (b'-' ∷ (pad2 m.month ++ codes "-01"))

-- What `go` shows and asks for, where the months are dates.
pub record Turn : Type 0 where
  pub view : Month
  pub load : Option Load

module _ (engine : Text → Option ℤ) where
  unfoldable pub month_end : Month → Option Text
  month_end m = do
    next ← add_months m.year m.month (pos 1)
    Calendar.add_days engine (month_start next) (negsuc 0)

  unfoldable pub turn : Month → List AvailabilityDay → ℤ → Option Turn
  turn view days delta = do
    next ← add_months view.year view.month delta
    second ← add_months next.year next.month (pos 1)
    end ← month_end second
    some (record {
      view = next;
      load =
          if not (has_day days (month_start second)) || not (has_day days (month_start next))
          then some (record { from = month_start next; to = end })
          else none;
    })

  abbrev pub add_load : Option Load → List Load → List Load
  add_load none loads = loads
  add_load (some l) loads = loads ++ l ∷ []

  abbrev pub turned : Option Turn → State → State
  turned none s = s
  turned (some t) s = record s { view = t.view; loading = add_load t.load s.loading }

  unfoldable pub go : ℤ → State → State
  go delta s = turned (turn s.view s.days delta) s

-- The request for a range that is complete.
abbrev pub request_of : Option Text → Option Text → ℕ → Option Request
request_of none check_out guests = none
request_of (some a) none guests = none
request_of (some a) (some b) guests =
    if is_empty a || is_empty b
    then none
    else some (record { check_in = a; check_out = b; guests = guests })

abbrev pub add_request : Option Request → List Request → List Request
add_request none waiting = waiting
add_request (some r) waiting = waiting ++ r ∷ []

unfoldable pub requote : Range → ℕ → State → State
requote r guests s = record s {
  quote = none;
  quoting = add_request (request_of r.check_in r.check_out guests) s.quoting;
}

unfoldable pub choose : Text → State → State
choose date s =
    let next = range_select s.range date in requote next s.guests (record s { range = next })

unfoldable pub change_guests : ℕ → State → State
change_guests g s = requote s.range g (record s { guests = g })

unfoldable pub clear : State → State
clear s = record s { range = record { check_in = none; check_out = none }; quote = none }

unfoldable pub open_booking : State → State
open_booking s = record s { booking = true }

unfoldable pub close_booking : State → State
close_booking s = record s { booking = false }

-- The answer to the oldest request.
abbrev pub quoted_with : QuoteResult → List Request → State → State
quoted_with result rest s = record s { quote = some result; quoting = rest }

abbrev pub days_loaded : List AvailabilityDay → List Load → State → State
days_loaded more rest s = record s { days = set_days s.days more; loading = rest }

-- Whether a day can be clicked.
abbrev pub state_of : Option AvailabilityDay → DayState
state_of none = blocked
state_of (some d) = d.state

abbrev pub is_free : DayState → Bool
is_free free = true
is_free blocked = false
is_free past = false

abbrev pub is_past : DayState → Bool
is_past free = false
is_past blocked = false
is_past past = true

abbrev pub after : Option Text → Text → Bool
after none date = false
after (some check_in) date = not (is_empty check_in) && before check_in date

abbrev pub equals : Option Text → Text → Bool
equals none date = false
equals (some d) date = same date d

unfoldable pub selectable : State → Text → Bool
selectable s date =
    let state = state_of (find_day s.days date) in
    if after s.range.check_in date && not (truthy s.range.check_out)
    then not (is_past state)
    else is_free state

unfoldable pub is_end : State → Text → Bool
is_end s date = equals s.range.check_in date || equals s.range.check_out date

unfoldable pub enabled : State → Text → Bool
enabled s date = selectable s date || is_end s date

-- The stay that is offered for booking beside the calendar.
pub record StaySummary : Type 0 where
  pub check_in : Text
  pub check_out : Text
  pub nights : Option ℤ
  pub guests : ℕ
  pub nightly_price : ℕ
  pub total : ℕ
  pub deposit : ℕ

abbrev pub priced_quote : Option QuoteResult → Option QuoteBreakdown
priced_quote none = none
priced_quote (some (priced q)) = some q
priced_quote (some (refused code)) = none

abbrev pub summary_of : Option ℤ → Option Request → Option QuoteBreakdown → Option StaySummary
summary_of nights none q = none
summary_of nights (some r) none = none
summary_of nights (some r) (some q) = some (record {
  check_in = r.check_in;
  check_out = r.check_out;
  nights = nights;
  guests = r.guests;
  nightly_price = q.nightly_price;
  total = q.total;
  deposit = q.deposit_due;
})

abbrev pub nights_of : (Text → Option ℤ) → Option Request → Option ℤ
nights_of engine none = none
nights_of engine (some r) = nights_between engine r.check_in r.check_out

unfoldable pub summary : (Text → Option ℤ) → State → Option StaySummary
summary engine s =
    let r = request_of s.range.check_in s.range.check_out s.guests in
    summary_of (nights_of engine r) r (priced_quote s.quote)
