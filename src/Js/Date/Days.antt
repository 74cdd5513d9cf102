-- ===== src/Js/Date/Days.antt =====
-- Days of the years 0 to 9999 by their numbers: what the built-ins do with their texts.
use Prim.Native.Nat.{ℕ, ◌+◌, ◌*◌, ◌<◌}
use mathlib.Core.Path.{◌≡◌, refl}
use mathlib.Core.Bool.{true, false}
use mathlib.Core.Option.{Option, some}
use mathlib.Core.List.{[], ◌++◌, append-nil}
use native.Mathlib.Omega.{arith}
use sahel.Common.{ltb}
use sahel.Common.Int.{ℤ}
use sahel.Js.Text.{Text, before, is_empty}
use sahel.Js.Digits.{pad4}
use sahel.Js.Civil.{Civil, day_number, civil_of}
use sahel.Js.Civil.Months.{day_number-civil_of, civil_of-day_number}
use sahel.Js.Date.{plain_iso, iso_time, ends, day_shape, parse, midnight, ms_per_day}
use sahel.Js.Date.Iso.{
  IsPlain, read_day-plain_iso, parse-plain_iso, parse-plain_iso-midnight, iso_time-day_number,
}
use sahel.Js.Date.Order.{before-ltb}
use sahel.Js.Date.Shift.{InRange, civil_of-IsPlain}

-- The YYYY-MM-DD text of a day number.
unfoldable pub day_text : ℕ → Text
day_text d = plain_iso (civil_of d)

module _ (d : ℕ) (r : InRange d) where
  pub parse-day_text :
      (engine : Text → Option ℤ) → parse engine (day_text d) ≡ some (d * ms_per_day)
  unfolding day_text
  parse-day_text engine =
      rw (parse-plain_iso engine (civil_of d) (civil_of-IsPlain d r), day_number-civil_of d)

  pub parse-midnight-day_text :
      (engine : Text → Option ℤ) → parse engine (day_text d ++ midnight) ≡ some (d * ms_per_day)
  unfolding day_text
  parse-midnight-day_text engine =
      rw
        (parse-plain_iso-midnight engine (civil_of d) (civil_of-IsPlain d r), day_number-civil_of d)

  pub iso_time_within : (k : ℕ) → k < ms_per_day → iso_time (d * ms_per_day + k) ≡ day_text d
  unfolding day_text
  iso_time_within k h =
      rw (day_number-civil_of d) at (iso_time-day_number (civil_of d) k (civil_of-IsPlain d r) h)

  pub iso_time-day_text : iso_time (d * ms_per_day) ≡ day_text d
  iso_time-day_text =
      let e : d * ms_per_day + 0 ≡ d * ms_per_day = omega arith in
      rw e at (iso_time_within 0 (omega arith))

  pub day_shape-day_text : day_shape (day_text d) ≡ true
  unfolding day_text day_shape ends is_empty
  day_shape-day_text = rw (
      rw (append-nil (plain_iso (civil_of d))) at
        (read_day-plain_iso (civil_of d) [] (civil_of-IsPlain d r)))

  pub day_text-ne_nil : is_empty (day_text d) ≡ false
  unfolding day_text plain_iso pad4 is_empty
  day_text-ne_nil = refl

-- `<` on texts is `<` on days.
pub before-day_text : (a b : ℕ) → InRange a → InRange b → before (day_text a) (day_text b) ≡ ltb a b
unfolding day_text
before-day_text a b ra rb =
    rw (day_number-civil_of a, day_number-civil_of b) at
      (before-ltb (civil_of a) (civil_of b) (civil_of-IsPlain a ra) (civil_of-IsPlain b rb))

-- Every day of the calendar has such a text.
pub day_text-day_number : (c : Civil) → IsPlain c → day_text (day_number c) ≡ plain_iso c
unfolding day_text
day_text-day_number c v = rw (civil_of-day_number c v.valid)
