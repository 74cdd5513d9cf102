-- ===== src/TimelineGrid/Page.antt =====
-- web/src/app/[locale]/dashboard/timeline/page.tsx: which days are asked for, and the links to
-- other weeks. `today` is the day in Cairo.
use sahel.Common.{ℕ, Option, some, ◌++◌}
use sahel.Common.Int.{ℤ, pos, negsuc}
use sahel.Js.Text.{Text, codes}
use sahel.Js.Digits.{numeral}
use sahel.Filter.{Params, param}
use sahel.Timeline.{◌>>=◌, add_days, parse_from}

-- DAYS
abbrev pub page_days : ℕ
page_days = 14

module _ (engine : Text → Option ℤ) where
  -- A day before today leads, unless the address has a day.
  unfoldable pub page_from : Text → Params → Option Text
  page_from today sp = do
    yesterday ← add_days engine today (negsuc 0)
    some (parse_from engine (some (param sp (codes "from"))) yesterday)

  unfoldable pub today_link : Text → Option Text
  today_link today = add_days engine today (negsuc 0)

  unfoldable pub week_before : Text → Option Text
  week_before from = add_days engine from (negsuc 6)

  unfoldable pub week_after : Text → Option Text
  week_after from = add_days engine from (pos 7)

unfoldable pub timeline_path : Text → Text
timeline_path from = codes "/timeline?from=" ++ (from ++ (codes "&days=" ++ numeral page_days))
