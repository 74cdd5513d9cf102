-- ===== src/ViewToggle/Tests.antt =====
-- The table of the units that are drafts.
use sahel.Common.{◌≡◌, refl, [], ◌∷◌}
use sahel.Js.Text.{Text, codes, same, is_empty}
use sahel.Js.Text.Trim.{trim, trim_start, trim_end, is_space}
use sahel.SearchParams.{single, first}
use sahel.Filter.{Params, lookup, param, table, unit_filters, filter_units, has_filters, list_view}
use sahel.ViewToggle.{kept, query, page_at, units_page}
use sahel.ViewToggle.Laws.{units_page-query}

abbrev plain : Text → Text
plain s = s

abbrev page : Params
page = (codes "done", single (codes "saved")) ∷ (codes "status", single (codes "draft")) ∷ []

toggle : Unit {0}
unfolding same is_empty trim trim_start trim_end is_space first lookup param unit_filters
    filter_units has_filters list_view kept query units_page
toggle = tt

runs : query table page ≡ (codes "status", codes "draft") ∷ (codes "view", codes "table") ∷ []
unfolding toggle
runs = refl

units_page-query_example :
    units_page plain [] (page_at (query table page))
    ≡ record (units_page plain [] page) { view = table }
unfolding toggle
units_page-query_example = units_page-query plain [] table page ((refl, tt), (tt, tt))
