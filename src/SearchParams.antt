-- ===== src/SearchParams.antt =====
-- web/src/lib/public/search-params.ts: the filters of the public search in the page's URL. The
-- parameters of a URL are a list of names and values; how they are printed is left out. A number is
-- a double that is whole and not negative. From 2 ^ 53 on, what digits are read as (large) and what
-- such a number prints as (to_string) are parameters.
pub mod Controls
pub mod Pages
pub mod Laws
mod Tests
use sahel.Common.{
  ℕ, ◌^◌, Bool, true, false, not, ◌&&◌, ◌||◌, Option, none, some, List, [], ◌∷◌, ltb, ◌==◌,
  if◌then◌else◌,
}
use sahel.Common.Int.{ℤ, pos, negsuc, sub_ℕ}
use sahel.Common.Lists.{any, keep, length}
use sahel.Js.Text.{Text, codes, same, is_empty}
use sahel.Js.Text.Trim.{trim, trim_start}
use sahel.Js.Digits.{number, numeral}
use sahel.Money.{span_digits}

abbrev pub unit_types : List Text
unit_types =
    codes "chalet"
    ∷ codes "villa"
    ∷ codes "twin"
    ∷ codes "town"
    ∷ codes "penthouse"
    ∷ codes "studio"
    ∷ codes "apartment"
    ∷ []

abbrev pub unit_views : List Text
unit_views = codes "sea" ∷ codes "lagoon" ∷ codes "pool" ∷ codes "garden" ∷ codes "street" ∷ []

abbrev pub sorts : List Text
sorts = codes "created_desc" ∷ codes "sea_distance_asc" ∷ codes "bedrooms_desc" ∷ []

pub record Filters : Type 0 where
  pub area : Text
  pub compound : Text
  pub kind : Text
  pub view : Text
  pub guests : ℕ
  pub bedrooms : ℕ
  pub max_sea_distance : ℕ
  pub sort : Text
  pub page : ℕ

-- A parameter of the page: missing, given once, or repeated.
pub data Param : Type 0 where
  missing : Param
  single : (v : Text) → Param
  repeated : (vs : List Text) → Param

abbrev pub Raw : Type 0
Raw = Text → Param

unfoldable pub first : Param → Text
first missing = []
first (single v) = trim v
first (repeated []) = []
first (repeated (v ∷ vs)) = trim v

unfoldable pub one_of : Text → List Text → Text
one_of v allowed = if any (λ a. same a v) allowed then v else []

-- A double holds every natural number below this one.
abbrev pub exact_bound : ℕ
exact_bound = 2 ^ 53

-- What Number.parseInt gives.
pub data Parsed : Type 0 where
  nan : Parsed
  infinite : Parsed
  whole : (n : ℤ) → Parsed

abbrev signed : Bool → Option ℕ → Parsed
signed negative none = infinite
signed negative (some n) = whole (if negative then sub_ℕ 0 n else pos n)

abbrev pub above_zero : Parsed → ℕ
above_zero nan = 0
above_zero infinite = 0
above_zero (whole (pos n)) = n
above_zero (whole (negsuc n)) = 0

-- `large` gives the double that digits of a larger number are read as, and none for infinity.
module _ (large : Text → Option ℕ) where
  unfoldable pub magnitude : Text → Option ℕ
  magnitude digits = let n = number digits in if ltb n exact_bound then some n else large digits

  abbrev pub of_digits : Bool → Text → Parsed
  of_digits negative digits = if is_empty digits then nan else signed negative (magnitude digits)

  abbrev pub of_signed : Text → Parsed
  of_signed [] = nan
  of_signed (c ∷ t) =
      if c == b'-'
      then of_digits true (span_digits t).0
      else if c == b'+'
      then of_digits false (span_digits t).0
      else of_digits false (span_digits (c ∷ t)).0

  -- Number.parseInt(s, 10)
  unfoldable pub parse_int : Text → Parsed
  parse_int s = of_signed (trim_start s)

  unfoldable pub positive : Text → ℕ
  positive v = above_zero (parse_int v)

-- n || 1
abbrev pub or_one : ℕ → ℕ
or_one n = if n == 0 then 1 else n

module _ (large : Text → Option ℕ) where
  unfoldable pub parse_search_params : Raw → Filters
  parse_search_params raw = record {
    area = first (raw (codes "area"));
    compound = first (raw (codes "compound"));
    kind = one_of (first (raw (codes "type"))) unit_types;
    view = one_of (first (raw (codes "view"))) unit_views;
    guests = positive large (first (raw (codes "guests")));
    bedrooms = positive large (first (raw (codes "bedrooms")));
    max_sea_distance = positive large (first (raw (codes "maxSeaDistance")));
    sort = one_of (first (raw (codes "sort"))) sorts;
    page = or_one (positive large (first (raw (codes "page"))));
  }

abbrev pub Entries : Type 0
Entries = List (Text × Text)

-- `to_string` prints the numbers that are larger: String(n).
module _ (to_string : ℕ → Text) where
  abbrev pub number_text : ℕ → Text
  number_text n = if ltb n exact_bound then numeral n else to_string n

  -- What a number prints as, where 0 is left out.
  abbrev pub count_text : ℕ → Text
  count_text n = if n == 0 then [] else number_text n

  abbrev pub candidates : Filters → ℕ → Entries
  candidates f page =
      (codes "area", f.area)
      ∷ (codes "compound", f.compound)
      ∷ (codes "type", f.kind)
      ∷ (codes "view", f.view)
      ∷ (codes "guests", count_text f.guests)
      ∷ (codes "bedrooms", count_text f.bedrooms)
      ∷ (codes "maxSeaDistance", count_text f.max_sea_distance)
      ∷ (codes "sort", f.sort)
      ∷ (codes "page", if ltb 1 page then number_text page else [])
      ∷ []

  -- The entries of the query, without those that have no value.
  unfoldable pub filters_to_query : Filters → ℕ → Entries
  filters_to_query f page = keep (λ e. not (is_empty e.1)) (candidates f page)

unfoldable pub active_filter_count : Filters → ℕ
active_filter_count f = length (
    keep (λ b. b)
      (not (is_empty f.area)
        ∷ not (is_empty f.compound)
        ∷ not (is_empty f.kind)
        ∷ not (is_empty f.view)
        ∷ not (f.guests == 0)
        ∷ not (f.bedrooms == 0)
        ∷ not (f.max_sea_distance == 0)
        ∷ []))
