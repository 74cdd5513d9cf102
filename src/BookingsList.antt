-- ===== src/BookingsList.antt =====
-- web/src/app/[locale]/dashboard/bookings/page.tsx: the query of the list, which goes to the API
-- and to the route of the export, and what the page shows. `print` is toString of URLSearchParams;
-- a name is set once, so that what is set stands at the end.
pub mod Laws
mod Tests
use sahel.Common.{
  ℕ, Bool, true, false, not, ◌&&◌, Option, none, some, List, [], ◌∷◌, ◌++◌, ◌==◌, if◌then◌else◌,
}
use sahel.Common.Lists.{length}
use sahel.Js.Text.{Text, codes, same, is_empty}
use sahel.AdminTypes.Bookings.{BookingRow}
use sahel.Filter.{Params, param}
use sahel.SearchParams.{Entries}
use sahel.Results.{question, set_param}

abbrev pub statuses : List Text
statuses =
    codes "pending_payment"
    ∷ codes "awaiting_verification"
    ∷ codes "confirmed"
    ∷ codes "checked_in"
    ∷ codes "completed"
    ∷ codes "cancelled"
    ∷ codes "expired"
    ∷ []

-- DAY.test: the pattern is ^d{4}-d{2}-d{2}$, whose d is the letter.
unfoldable pub day_test : Text → Bool
day_test s = same s (codes "dddd-dd-dd")

abbrev pub set_if : Bool → Text → Text → Entries → Entries
set_if test key value query = if test then set_param query key value else query

-- The query of the five values.
unfoldable pub query_of : Text → Text → Text → Text → Text → Entries
query_of q status unit from to = set_if (not (is_empty to) && day_test to) (codes "to") to (
    set_if (not (is_empty from) && day_test from) (codes "from") from (
      set_if (not (is_empty unit)) (codes "unit") unit (
        set_if (not (is_empty status)) (codes "status") status
          (set_if (not (is_empty q)) (codes "q") q []))))

unfoldable pub query : Params → Entries
query sp =
    query_of (param sp (codes "q")) (param sp (codes "status")) (param sp (codes "unit"))
      (param sp (codes "from")) (param sp (codes "to"))

abbrev pub is_filtered : Entries → Bool
is_filtered [] = false
is_filtered (e ∷ es) = true

abbrev pub with_query : (Entries → Text) → Text → Entries → Text
with_query print path es = if is_filtered es then path ++ (b'?' ∷ print es) else path

-- What the page asks the API for: the rows, and all bookings where the rows are filtered.
unfoldable pub asked : (Entries → Text) → Params → Text × Option Text
asked print sp = (
  with_query print (codes "/bookings") (query sp),
  (if is_filtered (query sp) then some (codes "/bookings") else none),
)

unfoldable pub export_href : (Entries → Text) → Text → Params → Text
export_href print locale sp =
    with_query print (b'/' ∷ (locale ++ codes "/dashboard/bookings/export")) (query sp)

-- The number of all bookings, from what is asked for beside the rows.
unfoldable pub total_of : List BookingRow → Option (List BookingRow) → ℕ
total_of rows none = length rows
total_of rows (some all) = length all

-- What stands in place of the table: that there are no bookings, or no results.
pub data Empty : Type 0 where
  nothing : Empty
  no_results : Empty

unfoldable pub empty_state : List BookingRow → Option (List BookingRow) → Option Empty
empty_state (row ∷ rows) all = none
empty_state [] all = if total_of [] all == 0 then some nothing else some no_results
