-- ===== src/FormFields/Tests.antt =====
-- Fields of forms, and a list that is read back.
use sahel.Common.{◌≡◌, refl, true, none, List, [], ◌∷◌}
use sahel.Js.Text.{Text, codes, same, is_empty}
use sahel.Js.Text.Trim.{is_space, trim_start, trim_end, trim}
use sahel.FormFields.{
  FormData, typed, get_field, text, optional, is_separator, split, items_of, list, checkbox,
}

abbrev amenities : List Text
amenities = codes "pool" ∷ codes "sea view" ∷ []

abbrev form : FormData
form = (codes "on_map", typed (codes "on")) ∷ (codes "slug", typed (codes " ")) ∷ []

fields : Unit {0}
unfolding same is_empty is_space trim_start trim_end trim get_field text optional is_separator split
    items_of list checkbox
fields = tt

runs :
    (checkbox form (codes "on_map") ≡ true)
    × (optional form (codes "slug") ≡ none)
    × (items_of (codes "a, b,, c ") ≡ codes "a" ∷ codes "b" ∷ codes "c" ∷ [])
unfolding fields
runs = (refl, refl, refl)
