-- ===== src/StayPlanner/Tests.antt =====
-- Choosing two nights, and the theorems there. The API of these runs asks 100 a night and guest.
use sahel.Common.{ℕ, ◌*◌, ◌≡◌, ◌↔◌, refl, true, false, Option, none, some, List, [], ◌∷◌, arith}
use sahel.Common.Int.{ℤ, pos, ◌+ℤ◌}
use sahel.Js.Text.{Text, codes, before, same, is_empty}
use sahel.Js.Digits.{number_from, numeral, digits, pad2}
use sahel.Js.Date.{dates}
use sahel.Calendar
use sahel.Calendar.{
  Month, range_select, add_months, nights_between, full_year, month_count, count_time, utc,
  month_of,
}
use sahel.PublicTypes.{AvailabilityDay, free, QuoteResult, priced}
use sahel.StayPlanner.{
  Request, State, initial_state, set_day, set_days, find_day, month_start, month_end, turn, go,
  requote, choose, change_guests, clear, quoted_with, days_loaded, selectable, is_end, enabled,
  open_booking, close_booking, StaySummary, summary,
}
use sahel.StayPlanner.Days.{answer_for, either, IsOpen, days_loaded_lem}
use sahel.StayPlanner.Steps.{
  Reach, shown, stepped, choosing, answered, adding, IsQuoted, summary-IsQuoted,
}

planner : Unit {0}
unfolding dates before same is_empty number_from numeral digits pad2 range_select add_months
    nights_between full_year month_count count_time utc month_of ◌+ℤ◌ initial_state set_day set_days
    find_day month_start month_end turn go requote choose change_guests clear selectable is_end
    enabled open_booking close_booking summary Calendar.add_days Calendar.set_utc_date
planner = tt

abbrev strict : Text → Option ℤ
strict s = none

abbrev Asked : Request → QuoteResult → Type 0
Asked r x =
    x
    ≡ priced (record {
      nightly_price = 100 * r.guests;
      night_count = 2;
      total = 200 * r.guests;
      deposit_due = 100;
    })

abbrev day : Text → AvailabilityDay
day d = record { date = d; price = some 100; state = free }

abbrev first_state : State
first_state =
    initial_state (codes "2027-06-01") (day (codes "2027-06-05") ∷ day (codes "2027-06-06") ∷ []) 3

abbrev arrived : State
arrived = choose (codes "2027-06-05") first_state

abbrev chosen : State
chosen = choose (codes "2027-06-07") arrived

abbrev more : State
more = change_guests 3 chosen

abbrev request : ℕ → Request
request n = record { check_in = codes "2027-06-05"; check_out = codes "2027-06-07"; guests = n }

abbrev price : ℕ → QuoteResult
price n =
    priced (record { nightly_price = 100 * n; night_count = 2; total = 200 * n; deposit_due = 100 })

abbrev between : State
between = quoted_with (price 2) (request 3 ∷ []) more

abbrev last : State
last = quoted_with (price 3) [] between

abbrev stay : StaySummary
stay = record {
  check_in = codes "2027-06-05";
  check_out = codes "2027-06-07";
  nights = some (pos 2);
  guests = 3;
  nightly_price = 300;
  total = 600;
  deposit = 100;
}

Reach-last : Reach strict Asked 3 last
unfolding planner
Reach-last =
    stepped between last
      (stepped more between
        (stepped chosen more
          (stepped arrived chosen
            (stepped first_state arrived
              (shown (codes "2027-06-01")
                (day (codes "2027-06-05") ∷ day (codes "2027-06-06") ∷ []))
              (choosing (codes "2027-06-05") first_state refl))
            (choosing (codes "2027-06-07") arrived refl))
          (adding chosen (omega arith)))
        (answered (request 2) (price 2) (request 3 ∷ []) more refl refl))
      (answered (request 3) (price 3) [] between refl refl)

runs :
    (month_start (record { year = pos 2027; month = 6 }) ≡ codes "2027-06-01")
    × ((go strict (pos 1) first_state).loading
        ≡ record { from = codes "2027-07-01"; to = codes "2027-08-31" } ∷ [])
    × (enabled first_state (codes "2027-06-20") ≡ false)
unfolding planner
runs = (refl, refl, refl)

summary-IsQuoted_example : IsQuoted strict Asked 3 stay
unfolding planner
summary-IsQuoted_example =
    summary-IsQuoted strict Asked 3 (omega arith) last stay Reach-last refl refl

abbrev loaded : AvailabilityDay
loaded = record { date = codes "2027-06-05"; state = free; price = some 100 }

-- An answer that gives the day a new price.
abbrev repriced : AvailabilityDay
repriced = record loaded { price = some 200 }

abbrev showing : State
showing = record (initial_state (codes "2027-06-01") [] 4) { days = loaded ∷ [] }

-- The answer for the next two months, with a new price for the day.
abbrev answer : List AvailabilityDay
answer = repriced ∷ day (codes "2027-07-01") ∷ day (codes "2027-08-01") ∷ []

days_loaded_lem_example :
    (find_day (days_loaded answer [] showing).days (codes "2027-06-05")
      ≡ either
          (answer_for answer (codes "2027-06-05"))
          (find_day showing.days (codes "2027-06-05")))
    × ((selectable (days_loaded answer [] showing) (codes "2027-06-05") ≡ true)
        ↔ IsOpen (
            either
              (answer_for answer (codes "2027-06-05"))
              (find_day showing.days (codes "2027-06-05"))))
    × ((delta : ℤ) (next second : Month)
        → add_months showing.view.year showing.view.month delta ≡ some next
        → add_months next.year next.month (pos 1) ≡ some second
        → (d e : AvailabilityDay) → answer_for answer (month_start next) ≡ some d
        → answer_for answer (month_start second) ≡ some e
        → (go strict delta (days_loaded answer [] showing)).loading ≡ [])
unfolding planner
days_loaded_lem_example = days_loaded_lem strict showing answer [] (codes "2027-06-05") refl

-- The day has the answer's price, and the months of the answer are not asked for again.
loading_runs :
    (find_day (days_loaded answer [] showing).days (codes "2027-06-05") ≡ some repriced)
    × (selectable (days_loaded answer [] showing) (codes "2027-06-05") ≡ true)
    × ((go strict (pos 1) (days_loaded answer [] showing)).loading ≡ [])
    × ((go strict (pos 2) (days_loaded answer [] showing)).loading
        ≡ record { from = codes "2027-08-01"; to = codes "2027-09-30" } ∷ [])
unfolding planner
loading_runs = (refl, refl, refl, refl)
