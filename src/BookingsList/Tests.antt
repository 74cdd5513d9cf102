-- ===== src/BookingsList/Tests.antt =====
-- A list that is filtered by its status and by dates.
use sahel.Common.{◌≡◌, refl, none, some, [], ◌∷◌, inl, inr}
use sahel.Js.Text.{codes, same, is_empty}
use sahel.Js.Text.Trim.{trim, trim_start, trim_end, is_space}
use sahel.Js.Digits.{is_digit}
use sahel.Js.Date.{day_shape, read_day, ends}
use sahel.SearchParams.{single, first}
use sahel.Results.{set_param, get_param}
use sahel.Results.Plain.{print}
use sahel.Filter.{Params, lookup, param}
use sahel.BookingsList.{
  day_test, query_of, query, asked, export_href, total_of, empty_state, nothing,
}
use sahel.BookingsList.Laws.{query_of_lem, export_query-query}
use sahel.BookingsExport.{export_query}

abbrev page : Params
page =
    (codes "status", single (codes "confirmed")) ∷ (codes "from", single (codes "2027-06-01")) ∷ []

list : Unit {0}
unfolding same is_empty trim trim_start trim_end is_space is_digit day_shape read_day ends first
    set_param get_param lookup param day_test query_of query asked export_href total_of empty_state
    export_query
list = tt

runs :
    (query page ≡ (codes "status", codes "confirmed") ∷ [])
    × ((asked print page).0 ≡ codes "/bookings?status=confirmed")
    × (empty_state [] none ≡ some nothing)
unfolding list
runs = (refl, refl, refl)

query_of_lem_example :
    query_of [] (codes "confirmed") [] (codes "2027-06-01") []
    ≡ (codes "status", codes "confirmed") ∷ []
unfolding list
query_of_lem_example =
    query_of_lem [] (codes "confirmed") [] (codes "2027-06-01") [] (inr refl) (inl refl)

export_query-query_example :
    export_query (get_param (query page))
    ≡ (codes "all", codes "1") ∷ (codes "status", codes "confirmed") ∷ []
unfolding list
export_query-query_example = export_query-query page
