-- ===== src/Timeline.antt =====
-- web/src/lib/admin/timeline.ts: date arithmetic of the units timeline. Days are texts. `none` as
-- the result of a function stands for the RangeError that `toISOString` throws on an invalid
-- date, and as a number for NaN. `engine` answers `Date.parse` on the texts that the language
-- leaves to it (Js/Date).
pub mod Days
pub mod Placing
pub mod Query
mod Tests
use sahel.Common.{
  ℕ, zero, suc, ◌+◌, ◌/◌, ◌%◌, Bool, true, false, not, ◌&&◌, ◌||◌, Option, none, some, List, [],
  ◌∷◌, ◌++◌, ◌==◌, if◌then◌else◌,
}
use sahel.Common.Int.{ℤ, pos}
use sahel.Js.Text.{Text, before, same, is_empty, at_most}
use sahel.Js.Date.{
  midnight, ms_per_day, parse, move_days, iso_time, weekday_of, round_days, day_shape,
}

-- Both branches of a thrown error, for `do`.
infixl 5 ◌>>=◌
abbrev pub ◌>>=◌ {ℓ κ} : {A : Type ℓ} {B : Type κ} → Option A → (A → Option B) → Option B
none >>= f = none
some a >>= f = f a

pub record Placement : Type 0 where
  pub col : Option ℤ
  pub span : Option ℤ
  pub clipped_start : Bool
  pub clipped_end : Bool

pub record Selection : Type 0 where
  pub start : Text
  pub end : Text
  pub nights : Option ℤ

module _ (engine : Text → Option ℤ) where
  -- Date.parse(`${day}T00:00:00Z`)
  unfoldable pub parse_midnight : Text → Option ℕ
  parse_midnight day = parse engine (day ++ midnight)

  unfoldable pub add_days : Text → ℤ → Option Text
  unfolding parse_midnight
  add_days day n = do t ← parse_midnight day; moved ← move_days t n; some (iso_time moved)

  -- The days from the i-th on; the first that cannot be printed throws.
  unfoldable pub days_from : Text → ℕ → ℕ → Option (List Text)
  days_from from zero i = some []
  days_from from (suc count) i =
      let rest = days_from from count (i + 1) in
      do day ← add_days from (pos i); days ← rest; some (day ∷ days)

  unfoldable pub day_range : Text → ℕ → Option (List Text)
  unfolding days_from
  day_range from count = days_from from count 0

  -- `getUTCDay` of an invalid date is NaN, which equals neither day.
  abbrev weekend : Option ℕ → Bool
  weekend none = false
  weekend (some t) = let d = weekday_of (t / ms_per_day) in (d == 5) || (d == 6)

  unfoldable pub is_weekend : Text → Bool
  unfolding parse_midnight
  is_weekend day = weekend (parse_midnight day)

  -- Math.round((Date.parse(b) - Date.parse(a)) / DAY_MS)
  unfoldable pub nights_between : Text → Text → Option ℤ
  nights_between a b = do x ← parse engine a; y ← parse engine b; some (round_days x y)

  unfoldable pub place : Text → Text → Text → ℕ → Option (Option Placement)
  unfolding nights_between
  place start end from count = do
    to ← add_days from (pos count)
    let first = if before start from then from else start
    let last = if before to end then to else end
    some (
        if at_most end from || at_most to start || at_most end start
        then none
        else some (record {
          col = nights_between from first;
          span = nights_between first last;
          clipped_start = before start from;
          clipped_end = before to end;
        }))

  unfoldable pub selection : Text → Text → Option Selection
  unfolding nights_between
  selection a b = do
    let start = if before a b then a else b
    end ← add_days (if before a b then b else a) (pos 1)
    some (record { start = start; end = end; nights = nights_between start end })

  -- A parsed time that prints as the value it came from.
  abbrev prints : Option ℕ → Text → Bool
  prints none value = false
  prints (some t) value = same (iso_time t) value

  unfoldable pub parse_from : Option Text → Text → Text
  unfolding parse_midnight
  parse_from none fallback = fallback
  parse_from (some value) fallback =
      if is_empty value || not (day_shape value)
      then fallback
      else if prints (parse_midnight value) value
      then value
      else fallback
