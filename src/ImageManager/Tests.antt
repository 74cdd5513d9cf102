-- ===== src/ImageManager/Tests.antt =====
-- The manager of two images, on the API of the tests of InPlace.
use sahel.Common.{◌≡◌, ◌≢◌, refl, ap, ◌∙◌, ◌<◌, ℕ, true, false, none, List, [], ◌∷◌, arith}
use sahel.Common.Lists.{get_or}
use sahel.Js.Text.{Text, is_empty, same, same_refl}
use sahel.Js.Digits.{is_digit}
use sahel.Api.{attempt, is_uuid, assert_id}
use sahel.AdminTypes.{UnitImage}
use sahel.InPlace.Images.{reorder_from, reorder_images}
use sahel.InPlace.Tests.{plain, unit_id, image_1, image_2, send, nowhere, send-SetsOne}
use sahel.ImageManager.{initial_state, swap_next, move_later, save_alt_ar, preview_key}
use sahel.ImageManager.Moves.{ids_of, get_or-move_later}

abbrev image : Text → UnitImage
image id = record {
  id = id;
  unit_id = unit_id;
  url = [];
  alt_ar = none;
  alt_en = none;
  sort = 0;
  is_cover = false;
  created_at = [];
  updated_at = [];
}

abbrev images : List UnitImage
images = image image_1 ∷ image image_2 ∷ []

manager : Unit {0}
unfolding is_empty same is_digit attempt is_uuid assert_id reorder_from reorder_images swap_next
    move_later save_alt_ar preview_key
manager = tt

runs :
    ((save_alt_ar plain send unit_id (image image_1) [] nowhere initial_state).1 ≡ initial_state)
    × (preview_key images 0 false true ≡ 1)
    × (preview_key images 0 true true ≡ 0)
    × (preview_key images 1 false true ≡ 1)
unfolding manager
runs = (refl, refl, refl, refl)

get_or-move_later_example :
    ((move_later plain send unit_id 0 images nowhere initial_state).0 image_1 ≡ 1)
    × ((move_later plain send unit_id 0 images nowhere initial_state).0 image_2 ≡ 0)
    × ((j : ℕ)
        → j ≢ 0
        → j ≢ 1
        → j < 2
        → (move_later plain send unit_id 0 images nowhere initial_state).0
            (get_or (ids_of plain send (λ s. s) images) j [])
          ≡ j)
unfolding manager
get_or-move_later_example =
    get_or-move_later plain send (λ s. s) unit_id send-SetsOne images 0 nowhere initial_state
      ((λ e. unequal e, tt), (tt, tt)) (omega arith) refl
  where
    unequal : image_1 ≢ image_2
    unequal e = let bad : false ≡ true = ap (λ t. same t image_2) e ∙ same_refl image_2 in cc
