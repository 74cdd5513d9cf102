-- ===== src/Reports.antt =====
-- web/src/app/[locale]/dashboard/reports/page.tsx and web/src/components/admin/bar-chart.tsx, and the
-- first figures of web/src/components/admin/today-panel.tsx. `integer_of` is Number of a text that
-- names an integer; `percent` is Math.round((part / whole) * 100), which is floating-point. A quotient
-- of two numbers below 2 ^ 52 rounds as the exact one does.
pub mod Laws
mod Tests
use sahel.Common.{
  ℕ, ◌+◌, ◌-◌, ◌*◌, ◌/◌, Bool, true, false, ◌&&◌, Option, none, some, List, [], ◌∷◌, ◌++◌, leb, ltb,
  ◌==◌, map, if◌then◌else◌,
}
use sahel.Common.Int.{ℤ, pos, negsuc}
use sahel.Common.Lists.{take}
use sahel.Js.Text.{Text, codes, same}
use sahel.Js.Digits.{numeral}
use sahel.AdminTypes.Timelines.{Report, ReportMonth, ReportUnit, Today}
use sahel.Filter.{Params, param}

unfoldable pub pct : (ℕ → ℕ → ℕ) → ℕ → ℕ → ℕ
pct percent part whole = if ltb 0 whole then percent part whole else 0

-- The year that is asked for, when it is one of 2000 to 2100.
abbrev pub in_range : Option ℤ → Option ℕ
in_range none = none
in_range (some (pos y)) = if leb 2000 y && leb y 2100 then some y else none
in_range (some (negsuc y)) = none

unfoldable pub year_of : (Text → Option ℤ) → Params → Option ℕ
year_of integer_of sp = in_range (integer_of (param sp (codes "year")))

abbrev pub path_for : Option ℕ → Text
path_for none = codes "/reports"
path_for (some y) = codes "/reports?year=" ++ numeral y

unfoldable pub report_path : (Text → Option ℤ) → Params → Text
report_path integer_of sp = path_for (year_of integer_of sp)

-- The years of the two links beside the heading.
unfoldable pub years_beside : Report → ℕ × ℕ
years_beside r = (r.year - 1, r.year + 1)

abbrev pub this_month : Report → Text
this_month r = take 7 r.today

abbrev pub sum : (ReportMonth → ℕ) → List ReportMonth → ℕ
sum k [] = 0
sum k (m ∷ months) = k m + sum k months

-- Math.round(revenue / nights), and none for the dash.
unfoldable pub rate : ℕ → ℕ → Option ℕ
rate revenue nights = if ltb 0 nights then some ((2 * revenue + nights) / (2 * nights)) else none

-- The four tiles: the money in piasters, and the nights in the note.
pub record Tiles : Type 0 where
  pub revenue : ℕ
  pub collected : ℕ
  pub occupancy : ℕ
  pub nights : ℕ
  pub average : Option ℕ

unfoldable pub tiles : (ℕ → ℕ → ℕ) → Report → Tiles
tiles percent r = record {
  revenue = sum (λ m. m.revenue) r.months;
  collected = sum (λ m. m.collected) r.months;
  occupancy = pct percent (sum (λ m. m.nights) r.months) (sum (λ m. m.available_nights) r.months);
  nights = sum (λ m. m.nights) r.months;
  average = rate (sum (λ m. m.revenue) r.months) (sum (λ m. m.nights) r.months);
}

pub record Bar : Type 0 where
  pub key : Text
  pub value : ℕ
  pub is_current : Bool

-- The bars of the two charts; those of the revenue are in piasters here.
unfoldable pub revenue_bars : Report → List Bar
revenue_bars r =
    map
      (λ (m : ReportMonth). record {
        key = m.month;
        value = m.revenue;
        is_current = same m.month (this_month r);
      })
      r.months

unfoldable pub occupancy_bars : (ℕ → ℕ → ℕ) → Report → List Bar
occupancy_bars percent r =
    map
      (λ (m : ReportMonth). record {
        key = m.month;
        value = pct percent m.nights m.available_nights;
        is_current = same m.month (this_month r);
      })
      r.months

-- The row of a unit in the table.
pub record UnitLine : Type 0 where
  pub revenue : ℕ
  pub nights : ℕ
  pub occupancy : ℕ
  pub average : Option ℕ
  pub blocked : ℕ

unfoldable pub unit_line : (ℕ → ℕ → ℕ) → ReportUnit → UnitLine
unit_line percent u = record {
  revenue = u.revenue;
  nights = u.nights;
  occupancy = pct percent u.nights u.available_nights;
  average = rate u.revenue u.nights;
  blocked = u.blocked_nights;
}

-- The occupancy of the week that today's panel shows.
unfoldable pub week_occupancy : (ℕ → ℕ → ℕ) → Today → ℕ
week_occupancy percent t = pct percent t.occupied_nights t.week_nights
