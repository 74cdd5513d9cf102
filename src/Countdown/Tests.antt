-- ===== src/Countdown/Tests.antt =====
-- A minute and a half, and the theorem there.
use sahel.Common.{ℕ, ◌≡◌, refl, false, Option, some}
use sahel.Js.Text.{Text, codes, is_empty}
use sahel.Countdown.{split_time, remaining, nothing_left}

abbrev at_90 : Text → Option ℕ
at_90 s = some 90500

runs :
    (remaining at_90 (some (codes "t")) 0
      ≡ record { hours = 0; minutes = 1; seconds = 30; over = false })
    × (remaining at_90 (some (codes "t")) 90500 ≡ nothing_left)
unfolding remaining split_time is_empty
runs = (refl, refl)
