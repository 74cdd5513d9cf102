-- ===== src/Calendar/Months.antt =====
-- Moving by days and by months.
use sahel.Common.{
  ℕ, suc, ◌+◌, ◌-◌, ◌*◌, ◌/◌, ◌%◌, ◌≤◌, ◌<◌, ◌≡◌, refl, ap, Option, some, arith, inl, inr,
  Option-cases,
}
use sahel.Common.{List}
use sahel.Common.Lists.{length, get_or, All, All-get_or}
use sahel.Common.Int.{ℤ, pos, pos_part, neg_part, sub_ℕ, ◌+ℤ◌, +ℤ_parts}
use sahel.Js.Text.{Text}
use sahel.Js.Civil.{Civil, civil, day_number, civil_of, month_lengths, leap_days, days_in_month}
use sahel.Js.Civil.Months.{day_number-civil_of, civil_of-IsValid, civil_of-day_number}
use sahel.Js.Date.{ms_per_day, year_shift, time_clip, move_days}
use sahel.Js.Date.Iso.{IsPlain}
use sahel.Js.Date.Shift.{InRange, round_days_lem, day_number-InRange}
use sahel.Js.Date.Days.{day_text, parse-midnight-day_text}
use sahel.Timeline
use sahel.Timeline.Days
use sahel.Calendar.{
  set_utc_date, utc_date, full_year, month_count, count_time, utc, month_of, add_months,
  parse_midnight, add_days, nights_between,
}

-- A day against the first of its month.
pub first_of_month : (c : Civil) → day_number c ≡ day_number (civil c.year c.month 1) + (c.day - 1)
unfolding day_number
first_of_month c = omega arith

sub_ℕ_cong : (a b c d : ℕ) → a + d ≡ c + b → sub_ℕ a b ≡ sub_ℕ c d
sub_ℕ_cong a b c d h = ground arith

pub sub_ℕ-pos : (a b k : ℕ) → a ≡ b + k → sub_ℕ a b ≡ pos k
sub_ℕ-pos a b k h = ground arith

-- Setting the day of the month `n` days on is moving the time by `n` days.
set_utc_date_lem : (t : ℕ) (n : ℤ) → set_utc_date t (pos (utc_date t) +ℤ n) ≡ move_days t n
unfolding set_utc_date move_days
set_utc_date_lem t n =
    let d = t / ms_per_day in
    let dt = pos (utc_date t) +ℤ n in
    let first = day_number (civil (civil_of d).year (civil_of d).month 1) in
    ap time_clip (
      sub_ℕ_cong ((first + pos_part dt) * ms_per_day + t % ms_per_day)
        (suc (neg_part dt) * ms_per_day) (t + pos_part n * ms_per_day) (neg_part n * ms_per_day)
        (omega (
          arith,
          +ℤ_parts (pos (utc_date t)) n,
          first_of_month (civil_of d),
          day_number-civil_of d,
          (civil_of-IsValid d).day_in,
        )))

module _ (engine : Text → Option ℤ) where
  -- The two addDays of the code base agree on every text, every number of days and every way in
  -- which Date.parse reads other texts.
  pub add_days-eq : (date : Text) (n : ℤ) → add_days engine date n ≡ Timeline.add_days engine date n
  unfolding add_days Timeline.add_days
  add_days-eq date n = elim (Option-cases (parse_midnight engine date)) [
    | inl bad ↦ rw bad
    | inr (t, parsed) ↦ rw (parsed, set_utc_date_lem t n)
  ]

  -- For days in the range of plain dates, addDays moves the day numbered d by n to the day
  -- numbered d + n, and nightsBetween counts n nights between them; n may be negative.
  pub nights_between-add_days :
      (d e : ℕ) (n : ℤ)
      → InRange d
      → InRange e
      → d + pos_part n ≡ e + neg_part n
      → (add_days engine (day_text d) n ≡ some (day_text e))
        × (nights_between engine (day_text d) (day_text e) ≡ some n)
  unfolding nights_between
  nights_between-add_days d e n rd re moved = (
    rw (add_days-eq (day_text d) n) (Timeline.Days.add_days_lem engine d e n rd re moved),
    rw
        (
          parse-midnight-day_text d rd engine,
          parse-midnight-day_text e re engine,
          round_days_lem d e,
        )
        (ap some (eq_sub_ℕ d e n moved)),
  )
    where
      eq_sub_ℕ : (d e : ℕ) (n : ℤ) → d + pos_part n ≡ e + neg_part n → sub_ℕ e d ≡ n
      eq_sub_ℕ d e n moved = ground arith

-- The first of the month that many months from the start of the shifted calendar.
abbrev pub first_of : ℕ → Civil
first_of k = civil (k / 12) (k % 12 + 1) 1

-- `k` counts the months to one of the years 100 to 9999.
abbrev pub InYears : ℕ → Type 0
InYears k = ((year_shift + 100) * 12 ≤ k) × (k < (year_shift + 10000) * 12)

pub first_of-IsPlain : (k : ℕ) → InYears k → IsPlain (first_of k)
unfolding days_in_month month_lengths
first_of-IsPlain k r = record {
  valid = record { month_in = omega arith; day_in = (omega arith, long_month k) };
  first_year = omega arith;
  last_year = omega arith;
}
  where
    some_day : (ls : List ℕ) (i : ℕ) → i < length ls → All (λ n. 1 ≤ n) ls → 1 ≤ get_or ls i 0
    some_day ls i h a = All-get_or (λ n. 1 ≤ n) ls i 0 h a

    long_month : (k : ℕ) → 1 ≤ get_or (month_lengths (leap_days (k / 12))) (k % 12 + 1 - 1) 0
    long_month k =
        some_day (month_lengths (leap_days (k / 12))) (k % 12 + 1 - 1) (omega arith) (omega arith)

-- Date.UTC counts the days of a month from the first, also past its ends.
pub count_time_lem :
    (k d e : ℕ)
    → InYears k
    → InRange e
    → day_number (first_of k) + d ≡ e + 1
    → count_time (pos k) d ≡ some (e * ms_per_day)
unfolding count_time time_clip
count_time_lem k d e r re h =
    let shift : sub_ℕ ((day_number (first_of k) + d) * ms_per_day) ms_per_day
        ≡ pos (e * ms_per_day) =
      sub_ℕ-pos _ _ _ (omega arith) in
    rw shift (ground arith)

pub month_count_lem :
    (y k : ℕ) (m : ℤ)
    → 100 ≤ y
    → (year_shift + y) * 12 + pos_part m ≡ k + neg_part m
    → month_count (full_year (pos y)) m ≡ pos k
unfolding month_count full_year
month_count_lem y k m h e = ground arith

-- The month of a time in it.
pub month_of_lem :
    (k : ℕ)
    → InYears k
    → month_of (day_number (first_of k) * ms_per_day)
      ≡ record { year = pos (k / 12 - year_shift); month = k % 12 + 1 }
unfolding month_of
month_of_lem k r =
    let d = day_number (first_of k) in
    let whole : d * ms_per_day / ms_per_day ≡ d = omega arith in
    let year : sub_ℕ (k / 12) year_shift ≡ pos (k / 12 - year_shift) =
      sub_ℕ-pos _ _ _ (omega arith) in
    rw (whole, civil_of-day_number (first_of k) (first_of-IsPlain k r).valid, year)

-- From a month of the year 100 or later, to a month of the years 100 to 9999, addMonths moves by
-- exactly n months, over the ends of years; n may be negative.
pub add_months_lem :
    (y m y' m' : ℕ) (n : ℤ)
    → 100 ≤ y
    → 1 ≤ m
    → (100 ≤ y') × (y' < 10000)
    → (1 ≤ m') × (m' ≤ 12)
    → y * 12 + m + pos_part n ≡ y' * 12 + m' + neg_part n
    → add_months (pos y) m n ≡ some (record { year = pos y'; month = m' })
unfolding add_months utc
add_months_lem y m y' m' n hy hm hy' hm' e =
    let k = (year_shift + y') * 12 + (m' - 1) in
    let r : InYears k = omega arith in
    let start : sub_ℕ m 1 ≡ pos (m - 1) = sub_ℕ-pos _ _ _ (omega arith) in
    let count : month_count (full_year (pos y)) (pos (m - 1) +ℤ n) ≡ pos k =
      month_count_lem y k (pos (m - 1) +ℤ n) hy (omega (arith, +ℤ_parts (pos (m - 1)) n)) in
    let time : count_time (pos k) 1 ≡ some (day_number (first_of k) * ms_per_day) =
      count_time_lem k 1 (day_number (first_of k)) r
        (day_number-InRange (first_of k) (first_of-IsPlain k r)) refl in
    let year : k / 12 - year_shift ≡ y' = omega arith in
    let month : k % 12 + 1 ≡ m' = omega arith in
    rw (start, count, time, month_of_lem k r, year, month)
