-- ===== src/UnitPage/Tests.antt =====
-- The photos of a unit, and the days that its page asks for.
use mathlib.Core.List.{Perm}
use sahel.Common.{ℕ, ◌≡◌, refl, Bool, true, false, none, some, List, [], ◌∷◌}
use sahel.Js.Text.{Text, codes}
use sahel.PublicTypes.{UnitImage}
use sahel.UnitPage.{cover, comes_after, ordered}
use sahel.UnitPage.Photos.{IsOrdered, ordered_lem}

abbrev photo : Text → ℕ → Bool → UnitImage
photo id sort is_cover = record {
  id = id;
  url = id;
  alt_ar = none;
  alt_en = none;
  sort = sort;
  is_cover = is_cover;
}

abbrev uploaded : List UnitImage
uploaded = photo (codes "c") 2 false ∷ photo (codes "b") 1 false ∷ photo (codes "a") 3 true ∷ []

runs :
    (ordered uploaded
      ≡ photo (codes "a") 3 true ∷ photo (codes "b") 1 false ∷ photo (codes "c") 2 false ∷ [])
    × (cover uploaded ≡ some (photo (codes "a") 3 true))
unfolding ordered comes_after cover
runs = (refl, refl)

ordered_lem_example : Perm (ordered uploaded) uploaded × IsOrdered (ordered uploaded)
ordered_lem_example = ordered_lem uploaded
