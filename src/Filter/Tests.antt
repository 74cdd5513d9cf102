-- ===== src/Filter/Tests.antt =====
-- Searches, and the query of one list.
use sahel.Common.{◌≡◌, refl, true, false, some, none, [], ◌∷◌}
use sahel.Js.Text.{codes, same, is_empty, starts_with}
use sahel.Js.Text.Trim.{is_space, trim_start, trim_end, trim}
use sahel.SearchParams.{single, first}
use sahel.Results.{delete_param, without_result, safe_return_query}
use sahel.Results.Plain.{print}
use sahel.Filter.{Params, includes, matches_query, query_entries, list_query}

abbrev asked : Params
asked =
    (codes "q", single (codes " villa "))
    ∷ (codes "status", single [])
    ∷ (codes "done", single (codes "saved"))
    ∷ []

filters : Unit {0}
unfolding same is_empty starts_with is_space trim_start trim_end trim first includes matches_query
    query_entries delete_param without_result safe_return_query list_query
filters = tt

runs :
    (matches_query (λ s. s) (codes " la ") (none ∷ some (codes "villa") ∷ []) ≡ true)
    × (matches_query (λ s. s) (codes "x") (some (codes "villa") ∷ []) ≡ false)
    × (list_query print asked ≡ codes "?q=villa")
unfolding filters
runs = (refl, refl, refl)
