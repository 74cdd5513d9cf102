-- ===== src/Js/Date.antt =====
-- The `Date` built-in in UTC, as far as the sources use it. A time value counts milliseconds from
-- the start of the shifted calendar of Js/Civil, so every time that a `Date` can hold is a
-- natural number; an invalid `Date` is `none`.
pub mod Iso
pub mod Order
pub mod Shift
pub mod Days
use Prim.Native.Nat.{ℕ, suc, ◌+◌, ◌-◌, ◌*◌, ◌/◌, ◌%◌, ◌≤◌, ◌<◌}
use mathlib.Core.Path.{◌≡◌, refl}
use mathlib.Core.Bool.{Bool, true, false, ◌&&◌, ◌||◌}
use mathlib.Core.Option.{Option, none, some}
use mathlib.Core.List.{[], ◌∷◌, ◌++◌}
use sahel.Common.{ltb, leb, ◌==◌, if◌then◌else◌}
use sahel.Common.Int.{ℤ, pos, negsuc, pos_part, neg_part, sub_ℕ}
use sahel.Js.Text.{Text, codes, is_empty, same}
use sahel.Js.Digits.{is_digit, number, number_from, pad2, pad4}
use sahel.Js.Civil.{Civil, civil, days_in_month, day_number, civil_of, calendar}

-- The length of a day in milliseconds.
abbrev pub ms_per_day : ℕ
ms_per_day = 86400000

abbrev pub year_shift : ℕ
year_shift = 280000

-- The day number of 1970-01-01.
abbrev pub epoch_day : ℕ
epoch_day = 102987428

-- TimeClip: a time is at most 8.64e15 ms, 10 ^ 8 days, from the epoch.
abbrev pub min_time : ℕ
min_time = (epoch_day - 100000000) * ms_per_day

abbrev pub max_time : ℕ
max_time = (epoch_day + 100000000) * ms_per_day

unfoldable pub time_clip : ℤ → Option ℕ
time_clip (pos t) = if leb min_time t && leb t max_time then some t else none
time_clip (negsuc t) = none

-- getUTCDay() of a day; Sunday is 0.
unfoldable pub weekday_of : ℕ → ℕ
weekday_of d = (d + 6) % 7

-- The day that `toISOString().slice(0, 10)` prints. A year outside 0 to 9999 has a sign and six
-- digits, and the slice then ends after the month.
abbrev pub dash : ℕ
dash = b'-'

unfoldable pub plain_iso : Civil → Text
plain_iso c = pad4 (c.year - year_shift) ++ dash ∷ (pad2 c.month ++ dash ∷ pad2 c.day)

unfoldable pub long_iso : ℕ → ℕ → ℕ → Text
long_iso sign y m = sign ∷ (pad2 (y / 10000) ++ (pad4 (y % 10000) ++ dash ∷ pad2 m))

unfoldable pub iso_of : Civil → Text
iso_of c =
    if ltb c.year year_shift
    then long_iso b'-' (year_shift - c.year) c.month
    else if ltb c.year (year_shift + 10000)
    then plain_iso c
    else long_iso b'+' (c.year - year_shift) c.month

unfoldable pub iso_time : ℕ → Text
iso_time t = iso_of (civil_of (t / ms_per_day))

-- A text that begins with dddd-dd-dd: the day that it names, real or not, and what follows.
unfoldable pub read_day : Text → Option (Civil × Text)
read_day (y1 ∷ y2 ∷ y3 ∷ y4 ∷ h1 ∷ m1 ∷ m2 ∷ h2 ∷ d1 ∷ d2 ∷ rest) =
    if is_digit y1
      && is_digit y2
      && is_digit y3
      && is_digit y4
      && (h1 == dash)
      && is_digit m1
      && is_digit m2
      && (h2 == dash)
      && is_digit d1
      && is_digit d2
    then some (
      civil (year_shift + number (y1 ∷ y2 ∷ y3 ∷ y4 ∷ [])) (number (m1 ∷ m2 ∷ []))
          (number (d1 ∷ d2 ∷ [])),
      rest,
    )
    else none
read_day _ = none

unfoldable pub ends : Option (Civil × Text) → Bool
ends none = false
ends (some (c, rest)) = is_empty rest

-- The regular expression /^\d{4}-\d{2}-\d{2}$/.
unfoldable pub day_shape : Text → Bool
day_shape s = ends (read_day s)

unfoldable pub is_real : Civil → Bool
is_real c =
    leb 1 c.month && leb c.month 12 && leb 1 c.day && leb c.day (days_in_month c.year c.month)

-- The suffix that the sources append to a day before they parse it.
abbrev pub midnight : Text
midnight = codes "T00:00:00Z"

-- Date.parse(s). A real day, alone or at midnight UTC, has the time that the language prescribes.
-- Every other text goes to `engine`: the other shapes of the standard format, and what is left
-- to the implementation.
unfoldable pub engine_time : Option ℤ → Option ℕ
engine_time none = none
engine_time (some t) = time_clip t

unfoldable pub day_time : Option (Civil × Text) → Option ℕ → Option ℕ
day_time none rest = rest
day_time (some (c, text)) rest =
    if is_real c && (is_empty text || same text midnight)
    then some (day_number c * ms_per_day)
    else rest

unfoldable pub parse : (Text → Option ℤ) → Text → Option ℕ
parse engine s = day_time (read_day s) (engine_time (engine s))

-- A time moved by whole days.
unfoldable pub move_days : ℕ → ℤ → Option ℕ
move_days t n = time_clip (sub_ℕ (t + pos_part n * ms_per_day) (neg_part n * ms_per_day))

-- Math.round((b - a) / ms_per_day), where a half rounds up.
unfoldable pub round_days : ℕ → ℕ → ℤ
round_days a b =
    if leb a b
    then pos ((b - a + 43200000) / ms_per_day)
    else sub_ℕ 0 ((a - b + 43199999) / ms_per_day)

-- All of this, for a declaration that runs it.
unfoldable pub dates : Unit {0}
unfolding calendar time_clip weekday_of iso_of plain_iso long_iso iso_time pad4 pad2 is_digit
    number_from read_day ends day_shape is_empty same is_real engine_time day_time parse move_days
    round_days
dates = tt
