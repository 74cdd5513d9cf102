-- ===== src/Calendar.antt =====
-- web/src/lib/public/calendar.ts: the calendar of the public site and of the stay picker. Days are
-- texts; `none` as the result of a function stands for the RangeError that `toISOString` throws
-- on an invalid date, and as a number for NaN. `engine` is that of Js/Date.
pub mod Months
pub mod Grid
pub mod Weeks
mod Tests
use sahel.Common.{
  ℕ, zero, suc, ◌+◌, ◌-◌, ◌*◌, ◌/◌, ◌%◌, Bool, true, false, not, ◌&&◌, ◌||◌, Option, none, some,
  List, [], ◌∷◌, ◌++◌, map, ltb, leb, ◌==◌, if◌then◌else◌,
}
use sahel.Common.Lists.{length, take, drop, replicate}
use sahel.Common.Int.{ℤ, pos, negsuc, pos_part, neg_part, sub_ℕ, ◌+ℤ◌}
use sahel.Js.Text.{Text, before, same, is_empty}
use sahel.Js.Civil.{civil, civil_of, day_number}
use sahel.Js.Date.{
  midnight, ms_per_day, year_shift, parse, time_clip, iso_time, weekday_of, round_days,
}

infixl 5 ◌>>=◌
abbrev pub ◌>>=◌ {ℓ κ} : {A : Type ℓ} {B : Type κ} → Option A → (A → Option B) → Option B
none >>= f = none
some a >>= f = f a

-- `weekdayOrder`: the week begins on Saturday.
abbrev pub weekday_order : List ℕ
weekday_order = 6 ∷ 0 ∷ 1 ∷ 2 ∷ 3 ∷ 4 ∷ 5 ∷ []

-- indexOf; a missing element gives -1, which never happens for a weekday.
unfoldable pub index_of : ℕ → List ℕ → Option ℕ
index_of w [] = none
index_of w (v ∷ vs) = if v == w then some 0 else (index_of w vs >>= λ i. some (suc i))

-- A year and a month from 1 to 12; the year may be negative.
pub record Month : Type 0 where
  pub year : ℤ
  pub month : ℕ

-- setUTCDate(dt): the day numbered `dt` of the month of `t`, at the same time of day.
unfoldable pub set_utc_date : ℕ → ℤ → Option ℕ
set_utc_date t dt =
    let c = civil_of (t / ms_per_day) in
    let first = day_number (civil c.year c.month 1) in
    time_clip
      (sub_ℕ ((first + pos_part dt) * ms_per_day + t % ms_per_day) (suc (neg_part dt) * ms_per_day))

-- getUTCDate()
abbrev pub utc_date : ℕ → ℕ
utc_date t = let c = civil_of (t / ms_per_day) in c.day

-- A year from 0 to 99 stands for 1900 to 1999 in `Date.UTC`.
unfoldable pub full_year : ℤ → ℤ
full_year (pos y) = pos (if leb y 99 then 1900 + y else y)
full_year (negsuc y) = negsuc y

-- The months from the start of the shifted calendar to the month `m` (from 0) of a year.
unfoldable pub month_count : ℤ → ℤ → ℤ
month_count y m =
    sub_ℕ (year_shift * 12 + pos_part y * 12 + pos_part m) (neg_part y * 12 + neg_part m)

-- The time of the day numbered `d` of the month that many months from the start.
unfoldable pub count_time : ℤ → ℕ → Option ℕ
count_time (negsuc k) d = none
count_time (pos k) d =
    time_clip (sub_ℕ ((day_number (civil (k / 12) (k % 12 + 1) 1) + d) * ms_per_day) ms_per_day)

-- Date.UTC(y, m, d), with the month from 0.
unfoldable pub utc : ℤ → ℤ → ℕ → Option ℕ
utc y m d = count_time (month_count (full_year y) m) d

unfoldable pub month_of : ℕ → Month
month_of t =
    let c = civil_of (t / ms_per_day) in record { year = sub_ℕ c.year year_shift; month = c.month }

-- `addMonths`; `none` is { year: NaN, month: NaN }.
unfoldable pub add_months : ℤ → ℕ → ℤ → Option Month
add_months year month n = do t ← utc year (sub_ℕ month 1 +ℤ n) 1; some (month_of t)

-- `monthGrid`, part by part: the days of the month from the d-th on, of which `left` are left.
unfoldable pub day_cells : ℤ → ℕ → ℕ → ℕ → Option (List (Option Text))
day_cells year month zero d = some []
day_cells year month (suc left) d =
    let rest = day_cells year month left (d + 1) in
    do t ← utc year (sub_ℕ month 1) d; cells ← rest; some (some (iso_time t) ∷ cells)

-- while (cells.length % 7) cells.push(null): at most six rounds.
unfoldable pub fill_week : ℕ → List (Option Text) → List (Option Text)
fill_week zero cells = cells
fill_week (suc fuel) cells =
    let more = fill_week fuel (cells ++ none ∷ []) in if length cells % 7 == 0 then cells else more

-- Slices of seven, of which there are fewer than cells.
unfoldable pub slices : ℕ → List (Option Text) → List (List (Option Text))
slices zero cells = []
slices (suc fuel) [] = []
slices (suc fuel) (c ∷ cells) = take 7 (c ∷ cells) ∷ slices fuel (drop 7 (c ∷ cells))

unfoldable pub month_grid : ℤ → ℕ → Option (List (List (Option Text)))
month_grid year month = do
  first ← utc year (sub_ℕ month 1) 1
  last ← utc year (pos month) 0
  lead ← index_of (weekday_of (first / ms_per_day)) weekday_order
  cells ← day_cells year month (utc_date last) 1
  let all = fill_week 6 (replicate lead none ++ cells)
  some (slices (length all) all)

pub record Range : Type 0 where
  pub check_in : Option Text
  pub check_out : Option Text

abbrev given : Option Text → Bool
given none = false
given (some s) = not (is_empty s)

-- A pick while a check-in waits for its check-out.
abbrev pub second_pick : Text → Text → Range
second_pick check_in date =
    if same date check_in
    then record { check_in = none; check_out = none }
    else if before check_in date
    then record { check_in = some check_in; check_out = some date }
    else record { check_in = some date; check_out = none }

abbrev pub pick : Option Text → Option Text → Text → Range
pick none check_out date = record { check_in = some date; check_out = none }
pick (some check_in) check_out date =
    if not (is_empty check_in) && not (given check_out)
    then second_pick check_in date
    else record { check_in = some date; check_out = none }

unfoldable pub range_select : Range → Text → Range
range_select r date = pick r.check_in r.check_out date

module _ (engine : Text → Option ℤ) where
  unfoldable pub parse_midnight : Text → Option ℕ
  parse_midnight s = parse engine (s ++ midnight)

  -- `addDays`: the day of the month is set past its ends.
  unfoldable pub add_days : Text → ℤ → Option Text
  unfolding parse_midnight set_utc_date
  add_days date n = do
    t ← parse_midnight date
    moved ← set_utc_date t (pos (utc_date t) +ℤ n)
    some (iso_time moved)

  unfoldable pub nights_between : Text → Text → Option ℤ
  unfolding parse_midnight
  nights_between check_in check_out = do
    a ← parse_midnight check_in
    b ← parse_midnight check_out
    some (round_days a b)

  unfoldable pub weekday : Text → Option ℕ
  unfolding parse_midnight
  weekday date = do t ← parse_midnight date; some (weekday_of (t / ms_per_day))
