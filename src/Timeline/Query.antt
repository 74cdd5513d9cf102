-- ===== src/Timeline/Query.antt =====
-- The `from` parameter of the timeline's URL.
use sahel.Common.{
  ℕ, ◌+◌, ◌-◌, ◌/◌, ◌≤◌, ◌<◌, ◌≡◌, refl, sym, ◌∙◌, ◌⊎◌, inl, inr, true, false, Option, none, some,
  arith, Bool-cases,
}
use sahel.Common.Int.{ℤ}
use sahel.Js.Text.{Text, same, same→eq, same_refl}
use sahel.Js.Digits.{is_digit, pad2, pad4}
use sahel.Js.Civil.Months.{civil_of-IsValid, day_number-civil_of}
use sahel.Js.Civil.{Civil, civil_of}
use sahel.Js.Date.{
  year_shift, ms_per_day, iso_time, iso_of, long_iso, day_shape, read_day, ends, plain_iso,
}
use sahel.Js.Date.Iso.{IsPlain}
use sahel.Js.Date.Shift.{InRange, day_number-InRange}
use sahel.Js.Date.Days.{
  day_text, day_shape-day_text, day_text-ne_nil, parse-midnight-day_text, iso_time-day_text,
}
use sahel.Timeline.{parse_midnight, parse_from}

module _ (engine : Text → Option ℤ) where
  -- parseFrom answers a real day in the range of plain dates with that day, whatever the fallback.
  pub parse_from-day_text :
      (d : ℕ) (fallback : Text)
      → InRange d
      → parse_from engine (some (day_text d)) fallback ≡ day_text d
  unfolding parse_from
  parse_from-day_text d fallback r = rw (
    day_text-ne_nil d r,
    day_shape-day_text d r,
    parse-midnight-day_text d r engine,
    iso_time-day_text d r,
    same_refl (day_text d),
  )

-- Only a year of four digits is printed in the shape dddd-dd-dd.
long-day_shape : (sign y m : ℕ) → is_digit sign ≡ false → day_shape (long_iso sign y m) ≡ false
unfolding day_shape read_day ends long_iso pad2 pad4
long-day_shape sign y m h = rw h

shaped_year :
    (c : Civil)
    → day_shape (iso_of c) ≡ true
    → (year_shift ≤ c.year) × (c.year < year_shift + 10000) × (iso_of c ≡ plain_iso c)
unfolding iso_of is_digit
shaped_year c h = ground (
  arith,
  long-day_shape b'-' (year_shift - c.year) c.month,
  long-day_shape b'+' (c.year - year_shift) c.month,
)

-- A time that prints in that shape prints as the day that it lies in.
printed_day :
    (t : ℕ) → day_shape (iso_time t) ≡ true → (d : ℕ) × InRange d × (iso_time t ≡ day_text d)
unfolding iso_time day_text
printed_day t h =
    let d = t / ms_per_day in
    let (low, high, e) = shaped_year (civil_of d) h in
    let plain : IsPlain (civil_of d) = record {
      valid = civil_of-IsValid d;
      first_year = low;
      last_year = high;
    } in
    (d, rw (day_number-civil_of d) at (day_number-InRange (civil_of d) plain), e)

module _ (engine : Text → Option ℤ) (value fallback : Text) where
  parse_from_cases :
      (t : Option ℕ)
      → parse_midnight engine value ≡ t
      → (parse_from engine (some value) fallback ≡ fallback)
        ⊎ ((d : ℕ) × InRange d
            × (value ≡ day_text d)
            × (parse_from engine (some value) fallback ≡ day_text d))
  unfolding parse_from
  parse_from_cases none e = inl (rw e (ground arith))
  parse_from_cases (some t) e = elim (Bool-cases (same (iso_time t) value)) [
    | inr differs ↦ inl (rw (e, differs) (ground arith))
    | inl equal ↦ elim (Bool-cases (day_shape value)) [
      | inr odd ↦ inl (rw odd (ground arith))
      | inl shaped ↦ real t e equal shaped
    ]
  ]
    where
      real :
          (t : ℕ)
          → parse_midnight engine value ≡ some t
          → same (iso_time t) value ≡ true
          → day_shape value ≡ true
          → (parse_from engine (some value) fallback ≡ fallback)
            ⊎ ((d : ℕ) × InRange d
                × (value ≡ day_text d)
                × (parse_from engine (some value) fallback ≡ day_text d))
      real t e equal shaped =
          let same_text = same→eq (iso_time t) value equal in
          let (d, r, printed) = printed_day t (rw same_text shaped) in
          let is_day : value ≡ day_text d = sym same_text ∙ printed in
          inr (d, r, is_day, rw is_day (parse_from-day_text engine d fallback r))

-- Whatever Date.parse makes of other texts, parseFrom answers the fallback, or the value that it
-- was given, which then is a real day.
pub parse_from_real :
    (engine : Text → Option ℤ) (value fallback : Text)
    → (parse_from engine (some value) fallback ≡ fallback)
      ⊎ ((d : ℕ) × InRange d
          × (value ≡ day_text d)
          × (parse_from engine (some value) fallback ≡ day_text d))
parse_from_real engine value fallback =
    parse_from_cases engine value fallback (parse_midnight engine value) refl
