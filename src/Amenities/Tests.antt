-- ===== src/Amenities/Tests.antt =====
-- The theorem at the amenities of one unit. A small toLowerCase stands in for the platform's.
use sahel.Common.{◌≡◌, refl, ℕ, ◌+◌, some, List, [], ◌∷◌, map, if◌then◌else◌, leb, ◌&&◌}
use sahel.Js.Text.{Text, codes, same, is_empty}
use sahel.Js.Text.Trim.{is_space, trim_start, trim_end, trim}
use sahel.Amenities.{merge_from, merge_amenities}

abbrev lower_code : ℕ → ℕ
lower_code c = if leb b'A' c && leb c b'Z' then c + 32 else c

abbrev lower : Text → Text
lower = map lower_code

abbrev unit_amenities : List Text
unit_amenities = codes "Pool" ∷ codes " " ∷ codes "BBQ " ∷ []

abbrev compound_amenities : List Text
compound_amenities = codes "pool" ∷ codes "Gym" ∷ []

runs :
    merge_amenities lower (some unit_amenities) (some compound_amenities)
    ≡ codes "Pool" ∷ codes "BBQ" ∷ codes "Gym" ∷ []
unfolding merge_from merge_amenities same is_empty is_space trim_start trim_end trim
runs = refl
