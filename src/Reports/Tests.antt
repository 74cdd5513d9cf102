-- ===== src/Reports/Tests.antt =====
-- A report of two months.
use sahel.Common.{ℕ, ◌+◌, ◌*◌, ◌/◌, ◌≡◌, refl, Option, some, [], ◌∷◌, if◌then◌else◌}
use sahel.Common.Int.{ℤ, pos}
use sahel.Js.Text.{Text, codes, same, is_empty}
use sahel.Js.Text.Trim.{trim, trim_start, trim_end, is_space}
use sahel.SearchParams.{single, first}
use sahel.AdminTypes.Timelines.{Report, ReportMonth}
use sahel.Filter.{lookup, param}
use sahel.Reports.{pct, year_of, report_path, rate, tiles, revenue_bars, occupancy_bars}

abbrev exact : ℕ → ℕ → ℕ
exact part whole = (200 * part + whole) / (2 * whole)

abbrev month : Text → ℕ → ℕ → ReportMonth
month name nights revenue = record {
  month = name;
  nights = nights;
  revenue = revenue;
  blocked_nights = 0;
  available_nights = 30;
  collected = 0;
  bookings_made = 1;
}

abbrev spring : Report
spring = record {
  year = 2027;
  today = codes "2027-05-03";
  active_units = 1;
  months = month (codes "2027-04") 3 1000 ∷ month (codes "2027-05") 4 1001 ∷ [];
  units = [];
}

abbrev asked : Text → Option ℤ
asked s = if is_empty s then some (pos 0) else some (pos 2101)

report : Unit {0}
unfolding pct year_of report_path rate tiles revenue_bars occupancy_bars same is_empty lookup param
    first trim trim_start trim_end is_space
report = tt

runs :
    ((tiles exact spring).average ≡ some 286)
    × ((tiles exact spring).occupancy ≡ 12)
    × (report_path asked ((codes "year", single (codes "2101")) ∷ []) ≡ codes "/reports")
unfolding report
runs = (refl, refl, refl)
