-- ===== src/InPlace/Images.antt =====
-- web/src/app/[locale]/dashboard/units/image-actions.ts, and the order of the images.
use sahel.Common.{ℕ, suc, Bool, false, Option, none, some, List, [], ◌∷◌, ◌++◌, ◌==◌, if◌then◌else◌}
use sahel.Js.Text.{Text, codes}
use sahel.Api.{
  Result, returned, failed, Method, post, patch, delete, Outcome, shows, attempt, assert_id,
}
use sahel.FormFields.{FormData, Value, typed, file, get_field}
use sahel.InPlace.{Body, photo, details, sort, send_to, path_of, attempted}

module _ {S V : Type 0} (stringify : Text → Text)
    (send : S → Method → Text → Option Body → S × Result V) where
  abbrev image_path : Result Text → Text → Result Text
  image_path (failed e) image_id = failed e
  image_path (returned unit_id) image_id =
      path_of stringify send (codes "/units/" ++ (unit_id ++ codes "/images/")) image_id []

  abbrev pub path_to : Text → Text → Result Text
  path_to unit_id image_id = image_path (assert_id stringify unit_id) image_id

  abbrev choose_file : Outcome
  choose_file = record {
    revalidated = false;
    answer = shows (some (codes "Choose an image file."));
  }

  abbrev pub upload_value : S → Text → Option Value → S × Outcome
  upload_value s unit_id none = (s, choose_file)
  upload_value s unit_id (some (typed t)) = (s, choose_file)
  upload_value s unit_id (some (file name size)) =
      if size == 0
      then (s, choose_file)
      else attempted stringify send (
          send_to stringify send s post
            (path_of stringify send (codes "/units/") unit_id (codes "/images"))
            (some (photo name size)))

  unfoldable pub upload_image : S → Text → FormData → S × Outcome
  upload_image s unit_id fd = upload_value s unit_id (get_field fd (codes "file"))

  unfoldable pub update_image :
      S → Text → Text → Option Text → Option Text → Option Bool → S × Outcome
  update_image s unit_id image_id alt_ar alt_en is_cover = attempted stringify send (
      send_to stringify send s patch (path_to unit_id image_id)
        (some (details alt_ar alt_en is_cover)))

  unfoldable pub delete_image : S → Text → Text → S × Outcome
  delete_image s unit_id image_id =
      attempted stringify send (send_to stringify send s delete (path_to unit_id image_id) none)

  abbrev pub after : S × Result V → S × Result (Unit {0}) → S × Result (Unit {0})
  after (s, failed e) rest = (s, failed e)
  after (s, returned v) rest = rest

  -- One request for each image, in order, until one fails.
  unfoldable pub reorder_from : S → Text → ℕ → List Text → S × Result (Unit {0})
  reorder_from s unit_id index [] = (s, returned tt)
  reorder_from s unit_id index (id ∷ ids) =
      let sent = send_to stringify send s patch (path_to unit_id id) (some (sort index)) in
      let rest = reorder_from sent.0 unit_id (suc index) ids in after sent rest

  abbrev pub ending : S × Result (Unit {0}) → S × Outcome
  ending (s, r) = (s, attempt r)

  unfoldable pub reorder_images : S → Text → List Text → S × Outcome
  reorder_images s unit_id ids = ending (reorder_from s unit_id 0 ids)
