-- ===== src/Timeline/Tests.antt =====
-- Runs of the timeline's functions, and its theorems at concrete days of 2027.
use sahel.Common.{ℕ, ◌+◌, ◌≡◌, refl, ◌↔◌, ◌≤◌, ◌<◌, true, false, Option, none, some, [], arith}
use sahel.Common.Int.{ℤ, pos, negsuc}
use sahel.Js.Text.{Text, codes, before}
use sahel.Js.Date.{dates}
use sahel.Js.Date.Days.{day_text}
use sahel.Timeline.{add_days, day_range, is_weekend, place, selection, parse_from, nights_between}
use sahel.Timeline.Placing.{Covers, place-Covers}

-- An engine that refuses every text that is left to it.
abbrev strict : Text → Option ℤ
strict s = none

-- 2027-06-01.
abbrev june : ℕ
june = 103008398

timeline : Unit {0}
unfolding dates add_days day_range is_weekend place selection parse_from nights_between day_text
    before
timeline = tt

runs :
    (day_text june ≡ codes "2027-06-01")
    × (add_days strict (codes "2027-01-30") (pos 3) ≡ some (codes "2027-02-02"))
    × (add_days strict (codes "2027-01-01") (negsuc 0) ≡ some (codes "2026-12-31"))
    × (add_days strict (codes "June") (pos 1) ≡ none)
    × (add_days strict (codes "0000-01-01") (negsuc 0) ≡ some (codes "-000001-12"))
    × (is_weekend strict (codes "2027-06-04") ≡ true)
    × (is_weekend strict (codes "2027-06-06") ≡ false)
    × (parse_from strict (some (codes "2027-02-10")) [] ≡ codes "2027-02-10")
    × (parse_from strict (some (codes "2027-02-30")) [] ≡ [])
    × (place strict (codes "2027-05-28") (codes "2027-06-03") (codes "2027-06-01") 14
        ≡ some (
            some (record {
              col = some (pos 0);
              span = some (pos 2);
              clipped_start = true;
              clipped_end = false;
            })))
    × (place strict (codes "2027-05-25") (codes "2027-06-01") (codes "2027-06-01") 14 ≡ some none)
unfolding timeline
runs = (refl, refl, refl, refl, refl, refl, refl, refl, refl, refl, refl)

-- A stay from four days before the visible range to two days into it, at its second column.
place-Covers_example :
    Covers (place strict (day_text 103008394) (day_text 103008400) (day_text june) 14) 1
    ↔ ((1 < 14) × (103008394 ≤ june + 1) × (june + 1 < 103008400))
place-Covers_example =
    place-Covers strict 103008394 103008400 june 14 (omega arith) (omega arith) (omega arith)
      (omega arith) 1
