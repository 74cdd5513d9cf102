-- ===== src/ViewToggle.antt =====
-- web/src/components/admin/view-toggle.tsx: the links to the two views of the units, which
-- web/src/app/[locale]/dashboard/units/page.tsx reads with its filters.
pub mod Laws
mod Tests
use sahel.Common.{ℕ, Bool, true, false, not, ◌&&◌, List, [], ◌∷◌, ◌++◌, if◌then◌else◌}
use sahel.Common.Lists.{any, length}
use sahel.Js.Text.{Text, codes, same, is_empty}
use sahel.AdminTypes.{UnitRow}
use sahel.SearchParams.{single, first, Entries}
use sahel.Filter.{
  Params, View, grid, table, UnitFilters, unit_filters, filter_units, has_filters, list_view,
}

-- ["view", "done", "name"].includes(key)
abbrev pub is_left_out : Text → Bool
is_left_out key = any (λ k. same k key) (codes "view" ∷ codes "done" ∷ codes "name" ∷ [])

unfoldable pub kept : Params → Entries
kept [] = []
kept ((k, v) ∷ sp) =
    let rest = kept sp in
    if not (is_empty (first v)) && not (is_left_out k) then (k, first v) ∷ rest else rest

unfoldable pub query : View → Params → Entries
query grid sp = kept sp
query table sp = kept sp ++ ((codes "view", codes "table") ∷ [])

-- The parameters of a page that a link with a query leads to.
abbrev pub page_at : Entries → Params
page_at [] = []
page_at ((k, v) ∷ es) = (k, single v) ∷ page_at es

-- What the page of the units shows: the rows, whether they are filtered, and the view.
pub record Shown : Type 0 where
  pub rows : List UnitRow
  pub total : ℕ
  pub is_filtered : Bool
  pub view : View

abbrev pub entries_of : UnitFilters → Entries
entries_of f =
    (codes "q", f.q)
    ∷ (codes "status", f.status)
    ∷ (codes "compound", f.compound)
    ∷ (codes "type", f.kind)
    ∷ []

unfoldable pub units_page : (Text → Text) → List UnitRow → Params → Shown
units_page fold all sp = record {
  rows = filter_units fold all (unit_filters sp);
  total = length all;
  is_filtered = has_filters (entries_of (unit_filters sp));
  view = list_view sp;
}
