-- ===== src/Countdown.antt =====
-- web/src/lib/public/countdown.ts: the time left until a timestamp. Times are milliseconds from the
-- first day of Js/Date, and `parse_time` is Date.parse on that scale, with none for NaN.
pub mod Laws
mod Tests
use sahel.Common.{ℕ, ◌-◌, ◌/◌, ◌%◌, Bool, true, false, Option, none, some, ltb, if◌then◌else◌}
use sahel.Js.Text.{Text, is_empty}

pub record Remaining : Type 0 where
  pub hours : ℕ
  pub minutes : ℕ
  pub seconds : ℕ
  pub over : Bool

abbrev pub nothing_left : Remaining
nothing_left = record { hours = 0; minutes = 0; seconds = 0; over = true }

unfoldable pub split_time : ℕ → Remaining
split_time total = record {
  hours = total / 3600;
  minutes = total % 3600 / 60;
  seconds = total % 60;
  over = false;
}

abbrev pub left_until : Option ℕ → ℕ → Remaining
left_until none now = nothing_left
left_until (some time) now = if ltb now time then split_time ((time - now) / 1000) else nothing_left

unfoldable pub remaining : (Text → Option ℕ) → Option Text → ℕ → Remaining
remaining parse_time none now = nothing_left
remaining parse_time (some until) now =
    if is_empty until then nothing_left else left_until (parse_time until) now
