-- ===== src/Paths.antt =====
-- web/src/lib/admin/paths.ts: URLs of the admin area. Each regular expression is anchored at the
-- start and ends in (?:\/|$): a fixed prefix, and then the end of the path or a slash.
pub mod Laws
use sahel.Common.{
  Bool, true, false, ◌&&◌, ◌||◌, Option, none, some, List, [], ◌∷◌, ◌++◌, ◌==◌, if◌then◌else◌,
}
use sahel.Common.Lists.{length, drop}
use sahel.Js.Text.{Text, codes, same, starts_with}

pub data Locale : Type 0 where
  ar en : Locale

abbrev pub locale_text : Locale → Text
locale_text ar = codes "ar"
locale_text en = codes "en"

-- (?:\/|$)
unfoldable pub at_boundary : Text → Bool
at_boundary [] = true
at_boundary (c ∷ s) = c == b'/'

unfoldable pub under : Text → Text → Bool
under prefix path = starts_with path prefix && at_boundary (drop (length prefix) path)

-- `dashboardHref`
unfoldable pub dashboard_href : Text → Text → Text
dashboard_href locale path = b'/' ∷ (locale ++ (codes "/dashboard" ++ path))

abbrev pub dashboard : Locale → Text
dashboard l = b'/' ∷ (locale_text l ++ codes "/dashboard")

unfoldable pub is_dashboard_path : Text → Bool
is_dashboard_path path = under (dashboard ar) path || under (dashboard en) path

unfoldable pub legacy_dashboard_target : Text → Option Text
legacy_dashboard_target path =
    if same path (codes "/dashboard") || starts_with path (codes "/dashboard/")
    then some (codes "/ar" ++ path)
    else none

abbrev pub entities : List Text
entities = codes "/areas" ∷ codes "/compounds" ∷ codes "/owners" ∷ codes "/units" ∷ []

-- The alternatives of the pattern in turn.
unfoldable pub first_under : List Text → Text → Text → Option Text
first_under [] base path = none
first_under (e ∷ es) base path =
    if under (base ++ e) path then some (base ++ e) else first_under es base path

abbrev pub or_else : Option Text → Option Text → Option Text
or_else none b = b
or_else (some a) b = some a

unfoldable pub entity_base : Text → Option Text
entity_base path =
    or_else (first_under entities (dashboard ar) path) (first_under entities (dashboard en) path)

unfoldable pub safe_locale : Text → Locale
safe_locale locale = if same locale (codes "en") then en else ar
