-- ===== src/SlugField/Tests.antt =====
-- A name that is typed twice, and its checks.
use sahel.Common.{◌≡◌, refl, Bool, true, false, none, some, List, [], ◌∷◌, if◌then◌else◌}
use sahel.Js.Text.{Text, codes, same, is_empty}
use sahel.Js.Digits.{is_digit}
use sahel.Api.{Result, returned}
use sahel.Slug.{slugify, is_slug_char, collapse, strip_start, strip_end}
use sahel.SlugField.{
  initial_state, free, slug_taken, check, blur, fill, blur_all, answer, answer_all,
}
use sahel.SlugField.Laws.{told_of, answer_all-blur_all}

abbrev plain : Text → Text
plain s = s

-- One unit, whose slug is sea-view.
abbrev get : Text → Result (List Text)
get path = returned (if same path (codes "/units?slug=sea-view") then codes "u1" ∷ [] else [])

abbrev ask : Text → Result Bool
ask slug = slug_taken plain get (codes "units") slug (some (codes "u2"))

field : Unit {0}
unfolding same is_empty is_digit slugify is_slug_char collapse strip_start strip_end slug_taken
    check blur fill blur_all answer answer_all
field = tt

runs :
    ((fill plain (codes "sea view") (initial_state none)).asked ≡ codes "sea-view" ∷ [])
    × ((answer_all ask (blur plain (codes "sea") (initial_state none))).status ≡ free)
    × (slug_taken plain get (codes "owners") (codes "sea-view") none ≡ returned false)
unfolding field
runs = (refl, refl, refl)

answer_all-blur_all_example :
    answer_all ask (blur_all plain (codes "sea" ∷ codes " sea  view!" ∷ []) (initial_state none))
    ≡ told_of ask (codes "sea-view") true
unfolding field
answer_all-blur_all_example =
    answer_all-blur_all ask plain (codes "sea" ∷ []) (codes " sea  view!") (initial_state none) true
      refl refl
