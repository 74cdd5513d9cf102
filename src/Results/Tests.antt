-- ===== src/Results/Tests.antt =====
-- The handshake at the query of one list.
use sahel.Common.{◌≡◌, refl, [], ◌∷◌}
use sahel.Js.Text.{codes, same, is_empty, starts_with}
use sahel.SearchParams.{Entries}
use sahel.Results.{created, delete_param, with_result, without_result, safe_return_query}
use sahel.Results.Plain.{print, parse}

abbrev listed : Entries
listed = (codes "q", codes "villa") ∷ (codes "view", codes "table") ∷ []

runs :
    (with_result print (codes "/ar/dashboard/areas") created (codes "Ras")
      ≡ codes "/ar/dashboard/areas?done=created&name=Ras")
    × (safe_return_query print parse (codes "?q=villa&done=saved&name=x") ≡ codes "?q=villa")
    × (safe_return_query print parse (codes "//evil") ≡ [])
unfolding same is_empty starts_with delete_param with_result without_result safe_return_query
runs = (refl, refl, refl)
