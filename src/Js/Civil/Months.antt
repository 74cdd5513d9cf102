-- ===== src/Js/Civil/Months.antt =====
-- Months and days within a year, and the two round trips between day numbers and civil days.
use Prim.Native.Nat.{ℕ, zero, suc, ◌+◌, ◌-◌, ◌≤◌, ◌<◌}
use mathlib.Core.Path.{◌≡◌, refl}
use mathlib.Core.List.{List, [], ◌∷◌}
use native.Mathlib.Omega.{arith}
use sahel.Common.Lists.{length, get_or}
use sahel.Js.Civil.{
  leap_days, day_from_year, year_of, month_lengths, start_of, locate, Civil, days_in_month, IsValid,
  day_number, civil_of,
}
use sahel.Js.Civil.Years.{day_from_year-add_one, year_of_lem, year_of_unique}

abbrev total : List ℕ → ℕ
total [] = 0
total (n ∷ ls) = n + total ls

-- A day within the year lies in the month that `locate` gives.
locate_lem :
    (ls : List ℕ) (r : ℕ)
    → r < total ls
    → ((locate ls r).0 < length ls)
      × ((locate ls r).1 < get_or ls (locate ls r).0 0)
      × (start_of ls (locate ls r).0 + (locate ls r).1 ≡ r)
unfolding locate start_of
locate_lem [] r h = absurd (omega arith)
locate_lem (n ∷ ls) r h = ground (arith, locate_lem ls (r - n))

-- It lies in no other month.
locate-start_of :
    (ls : List ℕ) (i r : ℕ)
    → i < length ls
    → r < get_or ls i 0
    → locate ls (start_of ls i + r) ≡ (i, r)
unfolding locate start_of
locate-start_of [] i r h k = absurd (omega arith)
locate-start_of (n ∷ ls) zero r h k = ground arith
locate-start_of (n ∷ ls) (suc i) r h k =
    let e : n + start_of ls i + r - n ≡ start_of ls i + r = omega arith in
    ground (arith, e, locate-start_of ls i r)

start_of-lt :
    (ls : List ℕ) (i r : ℕ) → i < length ls → r < get_or ls i 0 → start_of ls i + r < total ls
unfolding start_of
start_of-lt [] i r h k = absurd (omega arith)
start_of-lt (n ∷ ls) zero r h k = omega arith
start_of-lt (n ∷ ls) (suc i) r h k = omega (arith, start_of-lt ls i r)

total-month_lengths : (leap : ℕ) → total (month_lengths leap) ≡ 365 + leap
unfolding month_lengths
total-month_lengths leap = omega arith

pub length-month_lengths : (leap : ℕ) → length (month_lengths leap) ≡ 12
unfolding month_lengths
length-month_lengths leap = refl

-- The place of a day within its year.
abbrev located : ℕ → ℕ × ℕ
located d = locate (month_lengths (leap_days (year_of d))) (d - day_from_year (year_of d))

located_lem :
    (d : ℕ)
    → ((located d).0 < 12)
      × ((located d).1 < get_or (month_lengths (leap_days (year_of d))) (located d).0 0)
      × (day_from_year (year_of d)
            + start_of (month_lengths (leap_days (year_of d))) (located d).0
            + (located d).1
          ≡ d)
located_lem d =
    let y = year_of d in
    let ls = month_lengths (leap_days y) in
    let r = d - day_from_year y in
    let inside : r < total ls =
      omega (arith, year_of_lem d, day_from_year-add_one y, total-month_lengths (leap_days y)) in
    let (i, l, e) = locate_lem ls r inside in
    (omega (arith, length-month_lengths (leap_days y)), l, omega (arith, year_of_lem d))

-- The civil day of a day number is a day of the calendar.
pub civil_of-IsValid : (d : ℕ) → IsValid (civil_of d)
unfolding civil_of days_in_month
civil_of-IsValid d =
    let e : (located d).0 + 1 - 1 ≡ (located d).0 = omega arith in
    record { month_in = omega (arith, located_lem d); day_in = rw e (omega (arith, located_lem d)) }

-- Back to the day number that it came from.
pub day_number-civil_of : (d : ℕ) → day_number (civil_of d) ≡ d
unfolding civil_of day_number
day_number-civil_of d =
    let e : (located d).0 + 1 - 1 ≡ (located d).0 = omega arith in
    rw e (omega (arith, located_lem d))

-- The number of a day of the calendar lies in its year.
pub day_in_year :
    (c : Civil)
    → IsValid c
    → (day_from_year c.year ≤ day_number c) × (day_number c < day_from_year (c.year + 1))
unfolding day_number days_in_month
day_in_year c v =
    let ls = month_lengths (leap_days c.year) in
    omega (
      arith,
      day_from_year-add_one c.year,
      total-month_lengths (leap_days c.year),
      start_of-lt ls (c.month - 1) (c.day - 1)
          (omega (arith, v.month_in, length-month_lengths (leap_days c.year)))
          (omega (arith, v.day_in)),
    )

pub year_of-day_number : (c : Civil) → IsValid c → year_of (day_number c) ≡ c.year
year_of-day_number c v =
    year_of_unique (day_number c) c.year (day_in_year c v).0 (day_in_year c v).1

-- The civil day of the number of a day is the day itself.
pub civil_of-day_number : (c : Civil) → IsValid c → civil_of (day_number c) ≡ c
unfolding civil_of day_number days_in_month
civil_of-day_number c v =
    let ls = month_lengths (leap_days c.year) in
    let rest : day_number c - day_from_year c.year ≡ start_of ls (c.month - 1) + (c.day - 1) =
      omega arith in
    let found : locate ls (start_of ls (c.month - 1) + (c.day - 1)) ≡ (c.month - 1, c.day - 1) =
      locate-start_of ls (c.month - 1) (c.day - 1)
        (omega (arith, v.month_in, length-month_lengths (leap_days c.year)))
        (omega (arith, v.day_in)) in
    let m : c.month - 1 + 1 ≡ c.month = omega (arith, v.month_in) in
    let d : c.day - 1 + 1 ≡ c.day = omega (arith, v.day_in) in
    rw (year_of-day_number c v, rest, found, m, d)
