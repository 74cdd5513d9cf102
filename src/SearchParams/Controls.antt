-- ===== src/SearchParams/Controls.antt =====
-- The handlers of web/src/app/[locale]/(public)/search/search-controls.tsx, and pageWindow of
-- web/src/lib/public/urls.ts. `print` is URLSearchParams, and
-- `to_string` prints large numbers.
use sahel.Common.{
  ℕ, ◌+◌, ◌-◌, ◌/◌, Bool, false, Option, none, some, List, [], ◌++◌, ltb, if◌then◌else◌,
}
use sahel.Common.Lists.{keep}
use sahel.Js.Text.{Text, codes, same, is_empty}
use sahel.PublicTypes.{CompoundSummary}
use sahel.SearchParams.{Filters, Entries, filters_to_query}

-- Where a change of the filters sends the browser: to the first page.
unfoldable pub apply : (ℕ → Text) → (Entries → Text) → Filters → Text
apply to_string print next =
    let query = print (filters_to_query to_string next 1) in
    if is_empty query then codes "/search" else codes "/search?" ++ query

-- A choice of an area drops the compound.
unfoldable pub choose_area : Text → Filters → Filters
choose_area area f = record f { area = area; compound = []; page = 1 }

unfoldable pub choose_compound : Text → Filters → Filters
choose_compound compound f = record f { compound = compound; page = 1 }

unfoldable pub choose_kind : Text → Filters → Filters
choose_kind kind f = record f { kind = kind; page = 1 }

unfoldable pub choose_view : Text → Filters → Filters
choose_view view f = record f { view = view; page = 1 }

unfoldable pub choose_guests : ℕ → Filters → Filters
choose_guests guests f = record f { guests = guests; page = 1 }

unfoldable pub choose_bedrooms : ℕ → Filters → Filters
choose_bedrooms bedrooms f = record f { bedrooms = bedrooms; page = 1 }

-- Number(value) || 0, of one of the distances that are listed, or of nothing.
unfoldable pub choose_distance : Option ℕ → Filters → Filters
choose_distance none f = record f { max_sea_distance = 0; page = 1 }
choose_distance (some meters) f = record f { max_sea_distance = meters; page = 1 }

-- The order that is the default is left out.
unfoldable pub choose_sort : Text → Filters → Filters
choose_sort sort f = record f {
  sort = if same sort (codes "created_desc") then [] else sort;
  page = 1;
}

abbrev pub is_in_area : Text → CompoundSummary → Bool
is_in_area area c = elim c.area_slug [ none ↦ false | some slug ↦ same slug area ]

unfoldable pub area_compounds : Filters → List CompoundSummary → List CompoundSummary
area_compounds f compounds =
    if is_empty f.area then compounds else keep (is_in_area f.area) compounds

-- The buttons of Stepper, which are disabled at 0 and at the maximum.
unfoldable pub step_down : ℕ → ℕ
step_down value = value - 1

unfoldable pub step_up : ℕ → ℕ → ℕ
step_up max value = if ltb max (value + 1) then max else value + 1

pub record PageWindow : Type 0 where
  pub pages : ℕ
  pub prev : Option ℕ
  pub next : Option ℕ

-- Of pages of a size above 0; the quotient is rounded up.
unfoldable pub page_window : ℕ → ℕ → ℕ → PageWindow
page_window page size total =
    let filled = (total + (size - 1)) / size in
    let pages = if ltb filled 1 then 1 else filled in
    record {
      pages = pages;
      prev = if ltb 1 page then some (page - 1) else none;
      next = if ltb page pages then some (page + 1) else none;
    }
