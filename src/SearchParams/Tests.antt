-- ===== src/SearchParams/Tests.antt =====
-- The filters of concrete URLs, and the theorem at one.
use sahel.Common.{
  ℕ, suc, ◌*◌, ◌<◌, ◌≤◌, ◌↔◌, arith, ◌≡◌, refl, Option, none, some, [], ◌∷◌, if◌then◌else◌,
}
use sahel.Common.Int.{negsuc}
use sahel.Js.Text.{Text, codes, same, is_empty}
use sahel.Js.Text.Trim.{is_space, trim, trim_start, trim_end}
use sahel.Js.Digits.{is_digit, number_from, numeral, digits}
use sahel.Money.{span_digits}
use sahel.SearchParams.{
  missing, single, repeated, Raw, first, one_of, nan, infinite, whole, magnitude, parse_int,
  positive, parse_search_params, filters_to_query, active_filter_count,
}
use sahel.SearchParams.Controls.{page_window, step_up}
use sahel.SearchParams.Pages.{page_window_lem}
use sahel.SearchParams.Laws.{params, AreExact, parse_search_params-filters_to_query}

search : Unit {0}
unfolding same is_empty is_space trim trim_start trim_end is_digit number_from numeral digits
    span_digits first one_of magnitude parse_int positive parse_search_params filters_to_query
    active_filter_count
search = tt

-- Every larger number is read as infinity.
abbrev large : Text → Option ℕ
large digits = none

abbrev to_string : ℕ → Text
to_string n = codes "1e+21"

abbrev raw : Raw
raw key =
    if same key (codes "type")
    then single (codes "villa")
    else if same key (codes "sort")
    then single (codes "price")
    else if same key (codes "guests")
    then repeated (codes " 6 guests" ∷ codes "7" ∷ [])
    else missing

runs :
    (filters_to_query to_string (parse_search_params large raw) 1
      ≡ (codes "type", codes "villa") ∷ (codes "guests", codes "6") ∷ [])
    × (active_filter_count (parse_search_params large raw) ≡ 2)
    × (parse_int large (codes "-12px") ≡ whole (negsuc 11))
    × (parse_int large (codes "px") ≡ nan)
    × (positive large (codes "+3.5") ≡ 3)
    × (parse_int large (codes "-9999999999999999") ≡ infinite)
    × (positive large (codes "9999999999999999") ≡ 0)
unfolding search
runs = (refl, refl, refl, refl, refl, refl, refl)

asked_numbers :
    ((parse_search_params large raw).guests ≡ 6)
    × ((parse_search_params large raw).bedrooms ≡ 0)
    × ((parse_search_params large raw).max_sea_distance ≡ 0)
    × ((parse_search_params large raw).page ≡ 1)
unfolding search
asked_numbers = (refl, refl, refl, refl)

are_exact : AreExact (parse_search_params large raw)
are_exact =
    let (guests, bedrooms, distance, page) = asked_numbers in
    rw (guests, bedrooms, distance, page) (omega arith, omega arith, omega arith, omega arith)

parse_search_params-filters_to_query_example :
    parse_search_params large (
      params (
        filters_to_query to_string
          (parse_search_params large raw)
          (parse_search_params large raw).page))
    ≡ parse_search_params large raw
parse_search_params-filters_to_query_example =
    parse_search_params-filters_to_query large to_string raw are_exact

-- 41 units on pages of 20, on the second of them.
page_window_lem_example :
    (41 ≤ (page_window 2 20 41).pages * 20)
    × ((k : ℕ) → (page_window 2 20 41).pages ≡ suc (suc k) → suc k * 20 < 41)
    × (((page_window 2 20 41).next ≡ none) ↔ ((page_window 2 20 41).pages ≤ 2))
page_window_lem_example = page_window_lem 2 20 41 (omega arith)

controls :
    ((page_window 2 20 41).pages ≡ 3)
    × ((page_window 2 20 41).next ≡ some 3)
    × ((page_window 1 20 0).pages ≡ 1)
    × (step_up 20 20 ≡ 20)
unfolding page_window step_up
controls = (refl, refl, refl, refl)
