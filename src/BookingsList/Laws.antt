-- ===== src/BookingsList/Laws.antt =====
-- The dates of the list's filter, and the export of the list.
use sahel.Common.{◌≡◌, refl, ◌⊎◌, inl, inr, true, false, not, ◌&&◌, [], ◌∷◌, arith, Bool-cases}
use sahel.Js.Text.{Text, codes, same, same→eq, is_empty}
use sahel.Js.Digits.{is_digit}
use sahel.Js.Date.{day_shape, read_day, ends}
use sahel.Results.{get_param, set_param, delete_param}
use sahel.Filter.{Params}
use sahel.BookingsList.{day_test, query_of, query}
use sahel.BookingsExport.{export_query}

-- A text in the shape of a date does not match the pattern.
day_shape-day_test : (s : Text) → day_shape s ≡ true → day_test s ≡ false
unfolding day_test day_shape read_day ends is_digit
day_shape-day_test s h = elim (Bool-cases (day_test s)) [
  | inl e ↦
      let letters = same→eq s (codes "dddd-dd-dd") e in
      let bad : day_shape (codes "dddd-dd-dd") ≡ true = rw letters at h in cc
  | inr e ↦ e
]

dateless :
    (s : Text)
    → (is_empty s ≡ true) ⊎ (day_shape s ≡ true)
    → (not (is_empty s) && day_test s) ≡ false
dateless s (inl h) = rw h refl
dateless s (inr h) = rw (day_shape-day_test s h) (ground arith)

-- The list of bookings does not ask for the dates of its filter: when each of the two is blank or
-- has the shape dddd-dd-dd, the query is the one without dates.
pub query_of_lem :
    (q status unit from to : Text)
    → (is_empty from ≡ true) ⊎ (day_shape from ≡ true)
    → (is_empty to ≡ true) ⊎ (day_shape to ≡ true)
    → query_of q status unit from to ≡ query_of q status unit [] []
unfolding query_of is_empty
query_of_lem q status unit from to f t = rw (dateless from f, dateless to t) refl

-- The export of the list asks the API for exactly the query of the list: all=1 and then the same
-- parameters in the same order.
pub export_query-query :
    (sp : Params) → export_query (get_param (query sp)) ≡ (codes "all", codes "1") ∷ query sp
unfolding query query_of export_query get_param set_param delete_param same
export_query-query sp = ground arith
