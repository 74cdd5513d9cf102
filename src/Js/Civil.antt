-- ===== src/Js/Civil.antt =====
-- The proleptic Gregorian calendar as the `Date` built-in computes it (Day, YearFromTime,
-- MonthFromTime and DateFromTime of the language's specification), on day numbers. Years are
-- shifted by 280000, a multiple of the 400-year cycle, so that every year that a `Date` can
-- hold is a natural number.
pub mod Years
pub mod Months
pub mod Order
use Prim.Native.Nat.{ℕ, zero, suc, ◌+◌, ◌-◌, ◌*◌, ◌/◌, ◌%◌, ◌≤◌, ◌<◌}
use mathlib.Core.Path.{◌≡◌, refl}
use mathlib.Core.Bool.{Bool, true, false, not, ◌&&◌, ◌||◌}
use mathlib.Core.List.{List, [], ◌∷◌}
use native.Mathlib.Omega.{arith}
use sahel.Common.{ltb, ◌==◌, if◌then◌else◌}
use sahel.Common.Lists.{get_or}

-- DaysInYear(y) - 365.
unfoldable pub leap_days : ℕ → ℕ
leap_days y =
    if not (y % 4 == 0)
    then 0
    else if not (y % 100 == 0)
    then 1
    else if not (y % 400 == 0)
    then 0
    else 1

-- DayFromYear(y): the number of the first day of the year.
unfoldable pub day_from_year : ℕ → ℕ
day_from_year y = 365 * y + (y + 3) / 4 + (y + 399) / 400 - (y + 99) / 100

-- YearFromTime: the last year that begins no later than the day. The average year has
-- 146097 / 400 days, so the quotient is off by one at most.
unfoldable pub year_of : ℕ → ℕ
year_of d =
    let y = d * 400 / 146097 in
    if ltb d (day_from_year y) then y - 1 else if ltb d (day_from_year (y + 1)) then y else y + 1

-- The lengths of the months of a year with that many leap days.
unfoldable pub month_lengths : ℕ → List ℕ
month_lengths leap = 31 ∷ (28 + leap) ∷ 31 ∷ 30 ∷ 31 ∷ 30 ∷ 31 ∷ 31 ∷ 30 ∷ 31 ∷ 30 ∷ 31 ∷ []

-- How many days lie before the i-th month, from 0.
unfoldable pub start_of : List ℕ → ℕ → ℕ
start_of [] i = 0
start_of (n ∷ ls) zero = 0
start_of (n ∷ ls) (suc i) = n + start_of ls i

-- The month, from 0, and the day in it, from 0, of a day within the year.
unfoldable pub locate : List ℕ → ℕ → ℕ × ℕ
locate [] r = (0, r)
locate (n ∷ ls) r =
    let later = locate ls (r - n) in if ltb r n then (0, r) else (suc later.0, later.1)

-- A day of the calendar: the month and the day count from 1.
pub record Civil : Type 0 where
  pub year : ℕ
  pub month : ℕ
  pub day : ℕ

abbrev pub civil : ℕ → ℕ → ℕ → Civil
civil y m d = record { year = y; month = m; day = d }

unfoldable pub days_in_month : ℕ → ℕ → ℕ
days_in_month y m = get_or (month_lengths (leap_days y)) (m - 1) 0

pub record IsValid (c : Civil) : Type 0 where
  pub month_in : (1 ≤ c.month) × (c.month ≤ 12)
  pub day_in : (1 ≤ c.day) × (c.day ≤ days_in_month c.year c.month)

-- Day(t) of a civil day.
unfoldable pub day_number : Civil → ℕ
day_number c =
    day_from_year c.year + start_of (month_lengths (leap_days c.year)) (c.month - 1) + (c.day - 1)

-- The civil day of a day number.
unfoldable pub civil_of : ℕ → Civil
civil_of d =
    let y = year_of d in
    let place = locate (month_lengths (leap_days y)) (d - day_from_year y) in
    civil y (place.0 + 1) (place.1 + 1)

-- By year, then month, then day.
unfoldable pub earlier : Civil → Civil → Bool
earlier a b =
    ltb a.year b.year
    || ((a.year == b.year) && (ltb a.month b.month || ((a.month == b.month) && ltb a.day b.day)))

-- All of the calendar's arithmetic, for a declaration that runs it.
unfoldable pub calendar : Unit {0}
unfolding leap_days day_from_year year_of month_lengths start_of locate days_in_month day_number
    civil_of
calendar = tt
