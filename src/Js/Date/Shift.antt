-- ===== src/Js/Date/Shift.antt =====
-- Moving a day within the years 0 to 9999.
use Prim.Native.Nat.{ℕ, ◌+◌, ◌*◌, ◌≤◌, ◌<◌}
use mathlib.Core.Path.{◌≡◌, refl}
use mathlib.Core.Option.{some}
use native.Mathlib.Omega.{arith}
use sahel.Common.Int.{ℤ, pos_part, neg_part, sub_ℕ}
use sahel.Js.Civil.{Civil, day_from_year, year_of, day_number, civil_of}
use sahel.Js.Civil.Years.{year_of_lem}
use sahel.Js.Civil.Months.{day_in_year, civil_of-IsValid}
use sahel.Js.Date.{year_shift, time_clip, move_days, round_days, ms_per_day}
use sahel.Js.Date.Iso.{IsPlain}

le_of_not_later : (a b : ℕ) → (b < a → ⊥) → a ≤ b
le_of_not_later a b h = omega arith

lt_of_not_later : (a b : ℕ) → (b ≤ a → ⊥) → a < b
lt_of_not_later a b h = omega arith

day_from_year_le : (y z : ℕ) → y ≤ z → day_from_year y ≤ day_from_year z
unfolding day_from_year
day_from_year_le y z h = omega arith

-- The day numbers of the years 0 to 9999: from 0000-01-01, before 10000-01-01.
abbrev pub first_day : ℕ
first_day = 102267900

abbrev pub end_day : ℕ
end_day = 105920325

-- `d` is such a day.
abbrev pub InRange : ℕ → Type 0
InRange d = (first_day ≤ d) × (d < end_day)

range_ends : (day_from_year year_shift ≡ first_day) × (day_from_year (year_shift + 10000) ≡ end_day)
unfolding day_from_year
range_ends = (refl, refl)

pub day_number-InRange : (c : Civil) → IsPlain c → InRange (day_number c)
day_number-InRange c v = omega (
  arith,
  range_ends,
  day_in_year c v.valid,
  day_from_year_le year_shift c.year v.first_year,
  day_from_year_le (c.year + 1) (year_shift + 10000) (omega (arith, v.last_year)),
)

pub civil_of-IsPlain : (d : ℕ) → InRange d → IsPlain (civil_of d)
unfolding civil_of
civil_of-IsPlain d r = record {
  valid = civil_of-IsValid d;
  first_year = le_of_not_later year_shift (year_of d) (λ lt. absurd (
      omega (
        arith,
        range_ends,
        year_of_lem d,
        day_from_year_le (year_of d + 1) year_shift (omega arith),
      )));
  last_year = lt_of_not_later (year_of d) (year_shift + 10000) (λ le. absurd (
      omega
        (arith, range_ends, year_of_lem d, day_from_year_le (year_shift + 10000) (year_of d) le)));
}

-- A day moved within the years 0 to 9999 lands on the day with the moved number.
module _ (d : ℕ) (n : ℤ) (e : ℕ) (moved : d + pos_part n ≡ e + neg_part n) (r : InRange e) where
  pub move_days_lem : move_days (d * ms_per_day) n ≡ some (e * ms_per_day)
  unfolding move_days time_clip
  move_days_lem = ground arith

pub round_days_lem : (d e : ℕ) → round_days (d * ms_per_day) (e * ms_per_day) ≡ sub_ℕ e d
unfolding round_days
round_days_lem d e = ground arith
