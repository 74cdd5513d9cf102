-- ===== src/Js/Date/Iso.antt =====
-- Printing a day and reading it back.
use Prim.Native.Nat.{ℕ, ◌+◌, ◌-◌, ◌*◌, ◌/◌, ◌%◌, ◌≤◌, ◌<◌}
use mathlib.Core.Path.{◌≡◌, refl, ap}
use mathlib.Core.Bool.{true}
use mathlib.Core.Option.{Option, some}
use mathlib.Core.List.{[], ◌++◌, append-nil}
use native.Mathlib.Omega.{arith}
use sahel.Common.Int.{ℤ}
use sahel.Js.Text.{Text, is_empty, same_refl}
use sahel.Js.Digits.{is_digit, number, number_from, pad2, pad4}
use sahel.Common.Lists.{get_or, All-get_or}
use sahel.Js.Civil.Years.{leap_days-le}
use sahel.Js.Civil.Months.{civil_of-day_number}
use sahel.Js.Civil.{month_lengths, leap_days, Civil, civil, IsValid, days_in_month, day_number}
use sahel.Js.Date.{
  year_shift, plain_iso, iso_of, read_day, is_real, day_time, iso_time, parse, midnight, ms_per_day,
  dates,
}

-- A day of the years 0 to 9999.
pub record IsPlain (c : Civil) : Type 0 where
  pub valid : IsValid c
  pub first_year : year_shift ≤ c.year
  pub last_year : c.year < year_shift + 10000

epoch_test : day_number (civil 281970 1 1) ≡ 102987428
unfolding dates
epoch_test = refl

pub day-le_31 : (c : Civil) → IsValid c → c.day ≤ 31
unfolding days_in_month month_lengths
day-le_31 c v =
    let ls = month_lengths (leap_days c.year) in
    let few : get_or ls (c.month - 1) 0 ≤ 31 =
      All-get_or (λ n. n ≤ 31) ls (c.month - 1) 0 (omega (arith, v.month_in))
        (omega (arith, leap_days-le c.year)) in
    omega (arith, v.day_in)

is_digit_lem : (x : ℕ) → x < 10 → is_digit (b'0' + x) ≡ true
unfolding is_digit
is_digit_lem x h = ground arith

pad4_lem : (n : ℕ) → n < 10000 → number (pad4 n) ≡ n
unfolding pad4 number_from
pad4_lem n h = omega arith

pad2_lem : (n : ℕ) → n < 100 → number (pad2 n) ≡ n
unfolding pad2 number_from
pad2_lem n h = omega arith

civil_eq : (y m d : ℕ) (c : Civil) → y ≡ c.year → m ≡ c.month → d ≡ c.day → civil y m d ≡ c
civil_eq y m d c e f g = cc

-- A printed day is read back, whatever follows it.
pub read_day-plain_iso :
    (c : Civil) (rest : Text) → IsPlain c → read_day (plain_iso c ++ rest) ≡ some (c, rest)
unfolding read_day plain_iso pad4 pad2
read_day-plain_iso c rest v =
    let y = c.year - year_shift in
    let few = day-le_31 c v.valid in
    rw
      (
        is_digit_lem (y / 1000) (omega (arith, v.last_year)),
        is_digit_lem (y / 100 % 10) (omega arith),
        is_digit_lem (y / 10 % 10) (omega arith),
        is_digit_lem (y % 10) (omega arith),
        is_digit_lem (c.month / 10) (omega (arith, v.valid.month_in)),
        is_digit_lem (c.month % 10) (omega arith),
        is_digit_lem (c.day / 10) (omega arith),
        is_digit_lem (c.day % 10) (omega arith),
      )
      (ap (λ x. some (x, rest))
        (civil_eq _ _ _ c (omega (arith, pad4_lem y, v.first_year, v.last_year))
          (omega (arith, pad2_lem c.month, v.valid.month_in)) (omega (arith, pad2_lem c.day))))

pub is_real_lem : (c : Civil) → IsValid c → is_real c ≡ true
unfolding is_real
is_real_lem c v = ground (arith, v.month_in, v.day_in)

pub is_real-IsValid : (c : Civil) → is_real c ≡ true → IsValid c
unfolding is_real
is_real-IsValid c h = ground arith

-- A real day is parsed to its midnight, by every engine.
pub parse-plain_iso :
    (engine : Text → Option ℤ) (c : Civil)
    → IsPlain c
    → parse engine (plain_iso c) ≡ some (day_number c * ms_per_day)
unfolding parse day_time is_empty
parse-plain_iso engine c v =
    let read = rw (append-nil (plain_iso c)) at (read_day-plain_iso c [] v) in
    rw (read, is_real_lem c v.valid)

pub parse-plain_iso-midnight :
    (engine : Text → Option ℤ) (c : Civil)
    → IsPlain c
    → parse engine (plain_iso c ++ midnight) ≡ some (day_number c * ms_per_day)
unfolding parse day_time is_empty
parse-plain_iso-midnight engine c v =
    rw (read_day-plain_iso c midnight v, is_real_lem c v.valid, same_refl midnight)

-- What is printed of a time in the years 0 to 9999.
pub iso_of-IsPlain : (c : Civil) → IsPlain c → iso_of c ≡ plain_iso c
unfolding iso_of
iso_of-IsPlain c v = ground (arith, v.first_year, v.last_year)

pub iso_time-day_number :
    (c : Civil) (r : ℕ)
    → IsPlain c
    → r < ms_per_day
    → iso_time (day_number c * ms_per_day + r) ≡ plain_iso c
unfolding iso_time
iso_time-day_number c r v h =
    let e : (day_number c * ms_per_day + r) / ms_per_day ≡ day_number c = omega arith in
    rw (e, civil_of-day_number c v.valid) (iso_of-IsPlain c v)
