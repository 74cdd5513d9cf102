-- ===== src/Calendar/Tests.antt =====
-- Runs of the calendar's functions, and its theorems at concrete days and months.
use mathlib.Core.List.{flatten}
use sahel.Common.{ℕ, ◌+◌, ◌≡◌, ◌<◌, refl, Option, none, some, List, [], ◌∷◌, ◌++◌, arith}
use sahel.Common.Int.{ℤ, pos, negsuc, ◌+ℤ◌}
use sahel.Common.Lists.{length, get_or, replicate, All}
use sahel.Js.Text.{Text, codes, before}
use sahel.Js.Date.{dates, weekday_of}
use sahel.Calendar.{
  weekday_order, index_of, set_utc_date, full_year, month_count, count_time, utc, month_of,
  add_months, day_cells, fill_week, slices, month_grid, range_select, add_days, nights_between,
  weekday,
}
use sahel.Calendar.Weeks.{month_grid_lem, cells_from, month_first, month_length, month_lead}

abbrev strict : Text → Option ℤ
strict s = none

calendar : Unit {0}
unfolding dates index_of set_utc_date full_year month_count count_time utc month_of add_months
    day_cells fill_week slices month_grid range_select add_days nights_between weekday ◌+ℤ◌ before
calendar = tt

abbrev june : List (Option Text)
june =
    none
    ∷ none
    ∷ none
    ∷ some (codes "2027-06-01")
    ∷ some (codes "2027-06-02")
    ∷ some (codes "2027-06-03")
    ∷ some (codes "2027-06-04")
    ∷ []

abbrev first_week : Option (List (List (Option Text))) → List (Option Text)
first_week none = []
first_week (some []) = []
first_week (some (week ∷ weeks)) = week

runs :
    (add_days strict (codes "2027-02-28") (pos 1) ≡ some (codes "2027-03-01"))
    × (add_months (pos 2027) 12 (pos 1) ≡ some (record { year = pos 2028; month = 1 }))
    × (add_months (pos 2027) 1 (negsuc 0) ≡ some (record { year = pos 2026; month = 12 }))
    × (add_months (pos 50) 1 (pos 0) ≡ some (record { year = pos 1950; month = 1 }))
    × (nights_between strict (codes "2027-07-01") (codes "2027-07-04") ≡ some (pos 3))
    × (first_week (month_grid (pos 2027) 6) ≡ june)
    × (weekday strict (codes "2027-06-04") ≡ some 5)
unfolding calendar
runs = (refl, refl, refl, refl, refl, refl, refl)

month_grid_lem_example :
    (weeks : List (List (Option Text))) × (trail : ℕ) × (month_grid (pos 2027) (5 + 1) ≡ some weeks)
    × All (λ week. length week ≡ 7) weeks
    × (flatten weeks
        ≡ (replicate (month_lead 2027 5) none
            ++ cells_from (month_first 2027 5) (month_length 2027 5))
          ++ replicate trail none)
    × (trail < 7)
    × (get_or weekday_order (month_lead 2027 5) 0 ≡ weekday_of (month_first 2027 5))
month_grid_lem_example = month_grid_lem 2027 5 (omega arith) (omega arith)
