-- ===== src/Filter.antt =====
-- web/src/lib/admin/filter.ts: search and filters of the admin's lists. `fold` is the source's
-- fold, NFKC and lower case, which the platform gives; the page's parameters are a record of the
-- framework, a list of names, each once, with their values.
pub mod Laws
mod Tests
use sahel.Common.{
  Bool, true, false, not, ◌&&◌, ◌||◌, Option, none, some, List, [], ◌∷◌, ◌++◌, if◌then◌else◌,
}
use sahel.Common.Lists.{any, keep}
use sahel.Js.Text.{Text, codes, same, is_empty, starts_with}
use sahel.Js.Text.Trim.{trim}
use sahel.AdminTypes.{UnitRow}
use sahel.SearchParams.{Param, missing, first, Entries}
use sahel.Results.{question}

abbrev pub Params : Type 0
Params = List (Text × Param)

unfoldable pub lookup : Params → Text → Param
lookup [] key = missing
lookup ((k, v) ∷ sp) key = if same k key then v else lookup sp key

unfoldable pub param : Params → Text → Text
param sp key = first (lookup sp key)

-- s.includes(q)
unfoldable pub includes : Text → Text → Bool
includes [] q = starts_with [] q
includes (c ∷ s) q = let rest = includes s q in starts_with (c ∷ s) q || rest

pub record UnitFilters : Type 0 where
  pub q : Text
  pub status : Text
  pub compound : Text
  pub kind : Text

unfoldable pub unit_filters : Params → UnitFilters
unit_filters sp = record {
  q = param sp (codes "q");
  status = param sp (codes "status");
  compound = param sp (codes "compound");
  kind = param sp (codes "type");
}

module _ (fold : Text → Text) where
  abbrev pub field_matches : Text → Option Text → Bool
  field_matches q none = false
  field_matches q (some f) = includes (fold f) q

  unfoldable pub matches_query : Text → List (Option Text) → Bool
  matches_query query fields =
      let q = fold (trim query) in if is_empty q then true else any (field_matches q) fields

  unfoldable pub filter_by_query {ℓ} :
      {A : Type ℓ} → List A → Text → (A → List (Option Text)) → List A
  filter_by_query rows query fields = keep (λ row. matches_query query (fields row)) rows

  -- !f || value === f
  abbrev pub allows : Text → Text → Bool
  allows f value = is_empty f || same value f

  unfoldable pub passes : UnitFilters → UnitRow → Bool
  passes f u =
      allows f.status u.status
      && allows f.compound u.compound_id
      && allows f.kind u.kind
      && matches_query f.q (some u.title_ar ∷ some u.title_en ∷ some u.slug ∷ [])

  unfoldable pub filter_units : List UnitRow → UnitFilters → List UnitRow
  filter_units rows f = keep (passes f) rows

unfoldable pub has_filters : Entries → Bool
has_filters values = any (λ e. not (is_empty e.1)) values

pub data View : Type 0 where
  grid : View
  table : View

unfoldable pub list_view : Params → View
list_view sp = if same (param sp (codes "view")) (codes "table") then table else grid

-- The entries of a list's query: what has a value, but for the outcome of an action.
unfoldable pub query_entries : Params → Entries
query_entries [] = []
query_entries ((k, v) ∷ sp) =
    let rest = query_entries sp in
    if not (is_empty (first v)) && not (same k (codes "done")) && not (same k (codes "name"))
    then (k, first v) ∷ rest
    else rest

unfoldable pub list_query : (Entries → Text) → Params → Text
list_query print sp = question (print (query_entries sp))
