-- ===== src/FilterBar.antt =====
-- web/src/components/admin/filter-bar.tsx: the search and the filters of a list, which write to the
-- query of the page's URL. `print` is toString of URLSearchParams; the router's navigation lands,
-- and its query is then the parameters of the bar.
pub mod Laws
mod Tests
use sahel.Common.{
  Bool, true, false, not, ◌||◌, Option, none, some, List, [], ◌∷◌, ◌++◌, if◌then◌else◌,
}
use sahel.Common.Lists.{any}
use sahel.Js.Text.{Text, codes, same, is_empty}
use sahel.Js.Text.Trim.{trim}
use sahel.SearchParams.{Entries}
use sahel.Results.{get_param, set_param, delete_param}
use sahel.Labels.{text_or_blank}

abbrev pub q_key : Text
q_key = codes "q"

-- The text of the search field, and the parameters of the URL.
pub record State : Type 0 where
  pub q : Text
  pub params : Entries

abbrev pub initial_state : Entries → State
initial_state params = record { q = text_or_blank (get_param params q_key); params = params }

-- The parameters after changes, each of which is a name with its value.
abbrev pub change : Text × Text → Entries → Entries
change (key, value) params =
    if is_empty value then delete_param params key else set_param params key value

unfoldable pub changed : List (Text × Text) → Entries → Entries
changed [] params = params
changed (c ∷ changes) params = changed changes (change c params)

unfoldable pub apply : List (Text × Text) → State → State
apply changes s = record s { params = changed changes s.params }

abbrev pub href : Text → Text → Text
href pathname query = if is_empty query then pathname else pathname ++ (b'?' ∷ query)

-- Where apply goes, and whether it starts the bar of the navigation.
unfoldable pub leads_to : (Entries → Text) → Text → List (Text × Text) → State → Text × Bool
leads_to print pathname changes s =
    let query = print (changed changes s.params) in
    (href pathname query, not (same query (print s.params)))

abbrev pub typed_change : State → List (Text × Text)
typed_change s = (q_key, trim s.q) ∷ []

-- The effect: whether a timer of 300 ms is set, and what it does.
unfoldable pub is_waiting : State → Bool
is_waiting s = not (same (trim s.q) (text_or_blank (get_param s.params q_key)))

unfoldable pub elapse : State → State
elapse s = if is_waiting s then apply (typed_change s) s else s

unfoldable pub is_active : List Text → List Text → State → Bool
is_active selects dates s = is_set q_key || any is_set (selects ++ dates)
  where
    is_set : Text → Bool
    is_set name = elim (get_param s.params name) [ some v ↦ true | none ↦ false ]

-- The events: typing, the form's submission, a select or a date, the button that clears, and a
-- navigation of somebody else.
pub data Event : Type 0 where
  types : (text : Text) → Event
  submits : Event
  selects : (name value : Text) → Event
  clears : Event
  lands : (params : Entries) → Event

unfoldable pub next : State → Event → State
next s (types text) = record s { q = text }
next s submits = apply (typed_change s) s
next s (selects name value) = apply ((name, value) ∷ []) s
next s clears = record { q = []; params = [] }
next s (lands params) = record s { params = params }
