-- ===== src/PublicApi.antt =====
-- web/src/lib/public/api.ts, the server's reads of the public catalogue, and the two actions of
-- web/src/app/[locale]/(public)/unit/[slug]/stay-actions.ts. The network, encodeURI and the shapes
-- of the JSON are parameters; `bad_json` is what reading a body that is no JSON throws.
use sahel.Common.{not, ◌||◌, Option, none, some, List, [], ◌++◌, ◌==◌, if◌then◌else◌}
use sahel.Common.Int.{ℤ}
use sahel.Js.Text.{Text, codes}
use sahel.Js.Digits.{numeral}
use sahel.Js.Date.{day_shape}
use sahel.Api.{
  Failure, error, Result, returned, failed, Response, or_else, is_ok, Page, found, not_found,
  thrown,
}
use sahel.Guest.{api_url}
use sahel.PublicTypes.{AvailabilityDay, QuoteBreakdown, QuoteResult, priced, refused}

module _ {J : Type 0} (encode_uri : Text → Text) (base : Text) (bad_json : Failure)
    (fetch : Text → Result (Response J)) where
  abbrev pub json_of : Option J → Page J
  json_of none = thrown bad_json
  json_of (some j) = found j

  abbrev pub read_page : Text → Result (Response J) → Page J
  read_page what (failed e) = thrown e
  read_page what (returned r) =
      if r.status == 404
      then not_found
      else if not (is_ok r.status)
      then thrown (error (what ++ (codes " answered " ++ numeral r.status)))
      else json_of r.body

  unfoldable pub public_get : Text → Text → Page J
  public_get path query =
      read_page (codes "Public API " ++ path) (fetch (api_url encode_uri base path query))

  abbrev pub list_areas : Page J
  list_areas = public_get (codes "/areas") []

  abbrev pub get_area : Text → Page J
  get_area slug = public_get (codes "/areas/" ++ slug) []

  abbrev pub list_compounds : Text → Page J
  list_compounds query = public_get (codes "/compounds") query

  abbrev pub get_compound : Text → Text → Page J
  get_compound slug query = public_get (codes "/compounds/" ++ slug) query

  abbrev pub search_units : Text → Page J
  search_units query = public_get (codes "/units") query

  abbrev pub get_unit : Text → Page J
  get_unit slug = public_get (codes "/units/" ++ slug) []

  unfoldable pub get_availability : Text → Text → Text → Page J
  get_availability slug from to = read_page (codes "Availability") (
      fetch (
        api_url encode_uri base (codes "/units/" ++ (slug ++ codes "/availability"))
          (codes "from=" ++ (from ++ (codes "&to=" ++ to)))))

  -- The days of a range of dates, and none for what is no date.
  unfoldable pub load_availability :
      (J → List AvailabilityDay) → Text → Text → Text → Page (List AvailabilityDay)
  load_availability days_of slug from to =
      if not (day_shape from) || not (day_shape to)
      then found []
      else days_page (get_availability slug from to)
    where
      days_page : Page J → Page (List AvailabilityDay)
      days_page (found j) = found (days_of j)
      days_page not_found = not_found
      days_page (thrown e) = thrown e

-- The body of a request for a quote.
pub record QuoteBody : Type 0 where
  pub check_in : Text
  pub check_out : Text
  pub guests : ℤ

module _ {J : Type 0} (encode_uri : Text → Text) (base : Text) (error_code : J → Option Text)
    (breakdown_of : Option J → QuoteBreakdown) (post : Text → QuoteBody → Result (Response J)) where
  abbrev pub code_or_unavailable : Option J → Text
  code_or_unavailable none = codes "unavailable"
  code_or_unavailable (some j) = or_else (error_code j) (codes "unavailable")

  abbrev pub read_quote : Result (Response J) → Result QuoteResult
  read_quote (failed e) = failed e
  read_quote (returned r) =
      if is_ok r.status
      then returned (priced (breakdown_of r.body))
      else if (r.status == 422) || (r.status == 404)
      then returned (refused (code_or_unavailable r.body))
      else failed (error (codes "Quote answered " ++ numeral r.status))

  unfoldable pub post_quote : Text → Text → Text → ℤ → Result QuoteResult
  post_quote slug check_in check_out guests = read_quote (
      post (api_url encode_uri base (codes "/units/" ++ (slug ++ codes "/quote")) [])
        (record { check_in = check_in; check_out = check_out; guests = guests }))

  -- `guests` is none when it is no integer.
  unfoldable pub quote_stay : Text → Text → Text → Option ℤ → Result QuoteResult
  quote_stay slug check_in check_out none = returned (refused (codes "invalid_range"))
  quote_stay slug check_in check_out (some guests) =
      if not (day_shape check_in) || not (day_shape check_out)
      then returned (refused (codes "invalid_range"))
      else post_quote slug check_in check_out guests
