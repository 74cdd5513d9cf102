-- ===== src/UnitPage.antt =====
-- web/src/app/[locale]/(public)/unit/[slug]/page.tsx: the photos of a unit, in the order of the
-- gallery, the days that the page asks for, and which facts and sections it shows. `today` is a day
-- in the shape dddd-dd-dd, `engine` the date parser of Js.Date; sort is stable.
pub mod Photos
mod Tests
use sahel.Common.{
  ℕ, Bool, true, false, not, Option, none, some, List, [], ◌∷◌, ◌++◌, ltb, ◌==◌, map, if◌then◌else◌,
}
use sahel.Common.Int.{ℤ, pos, negsuc}
use sahel.Common.Lists.{take, drop}
use sahel.Js.Text.{Text, codes, is_empty}
use sahel.Js.Digits.{number, numeral, pad2}
use sahel.Calendar.{◌>>=◌, Month, add_months, add_days}
use sahel.Labels.{pick}
use sahel.PublicTypes.{UnitImage, UnitDetail}

abbrev pub first_cover : List UnitImage → Option UnitImage
first_cover [] = none
first_cover (i ∷ images) = if i.is_cover then some i else first_cover images

abbrev pub first_photo : List UnitImage → Option UnitImage
first_photo [] = none
first_photo (i ∷ images) = some i

-- The photo of the page's metadata.
unfoldable pub cover : List UnitImage → Option UnitImage
cover images = elim (first_cover images) [ some i ↦ some i | none ↦ first_photo images ]

-- The comparison of the sort is above 0.
unfoldable pub comes_after : UnitImage → UnitImage → Bool
comes_after a b =
    if a.is_cover
    then (if b.is_cover then ltb b.sort a.sort else false)
    else if b.is_cover
    then true
    else ltb b.sort a.sort

abbrev pub put_in : UnitImage → List UnitImage → List UnitImage
put_in i [] = i ∷ []
put_in i (j ∷ images) =
    let rest = put_in i images in if comes_after i j then j ∷ rest else i ∷ j ∷ images

unfoldable pub ordered : List UnitImage → List UnitImage
ordered [] = []
ordered (i ∷ images) = put_in i (ordered images)

pub record Photo : Type 0 where
  pub url : Text
  pub alt : Text

abbrev pub photo_of : Text → UnitImage → Photo
photo_of locale i = record { url = i.url; alt = pick locale i.alt_ar i.alt_en }

unfoldable pub photos : Text → List UnitImage → List Photo
photos locale images = map (photo_of locale) (ordered images)

-- The first of the month, two months on.
abbrev pub first_of : Month → Option Text
first_of m = elim m.year [
  | pos y ↦ some (numeral y ++ (b'-' ∷ (pad2 m.month ++ codes "-01")))
  | negsuc y ↦ none
]

-- The first and the last day that the page asks for: this month and the next.
unfoldable pub asked_days : (Text → Option ℤ) → Text → Option (Text × Text)
asked_days engine today = do
  next ← add_months (pos (number (take 4 today))) (number (take 2 (drop 5 today))) (pos 2)
  first ← first_of next
  last ← add_days engine first (negsuc 0)
  some (take 7 today ++ codes "-01", last)

-- Which of the facts that may be missing are shown: the size, unless it is 0, and the floor.
unfoldable pub shows_size : UnitDetail → Bool
shows_size u = elim u.area_sqm [ some n ↦ not (n == 0) | none ↦ false ]

unfoldable pub shows_floor : UnitDetail → Bool
shows_floor u = elim u.floor [ some f ↦ true | none ↦ false ]

unfoldable pub shows_row : UnitDetail → Bool
shows_row u = elim u.row_number [
  | some (pos n) ↦ not (n == 0)
  | some (negsuc n) ↦ true
  | none ↦ false
]

abbrev pub both {ℓ} : {A : Type ℓ} → Option A → Option A → Bool
both none b = false
both (some a) none = false
both (some a) (some b) = true

unfoldable pub shows_map : UnitDetail → Bool
shows_map u = both u.lat u.lng
