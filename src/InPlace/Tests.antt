-- ===== src/InPlace/Tests.antt =====
-- The actions on a concrete API, and the theorem on the order of images there.
use mathlib.Core.List.{append-nil}
use sahel.Common.{
  ℕ, ◌≡◌, ◌≢◌, refl, ap, sym, ◌∙◌, inl, inr, true, false, Bool-cases, Option, some, [], ◌∷◌, ◌++◌,
  arith, if◌then◌else◌,
}
use sahel.Common.Int.{negsuc}
use sahel.Common.Lists.{drop}
use sahel.Js.Text.{Text, codes, is_empty, same, same_refl, same→eq}
use sahel.Js.Digits.{is_digit}
use sahel.Api.{
  Result, returned, failed, api_error, error, Method, patch, attempt, is_uuid, assert_id,
}
use sahel.FormFields.{typed, get_field}
use sahel.InPlace.{Body, sort, money, create_block, verify_payment}
use sahel.InPlace.Images.{upload_image, reorder_from, reorder_images}
use sahel.InPlace.Order.{SetsOne, get_or-reorder_images}

pub actions : Unit {0}
unfolding is_empty same is_uuid assert_id attempt get_field money create_block verify_payment
    upload_image reorder_from reorder_images
actions = tt

abbrev pub plain : Text → Text
plain s = s

abbrev pub unit_id : Text
unit_id = codes "00000000-0000-0000-0000-000000000001"

abbrev pub image_1 : Text
image_1 = codes "00000000-0000-0000-0000-00000000000a"

abbrev pub image_2 : Text
image_2 = codes "00000000-0000-0000-0000-00000000000b"

-- The places of the images, by identifier.
abbrev pub Places : Type 0
Places = Text → ℕ

abbrev pub id_in : Text → Text
id_in path = drop 51 path

abbrev pub send : Places → Method → Text → Option Body → Places × Result (Unit {0})
send s patch path (some (sort i)) = (λ id. if same (id_in path) id then i else s id, returned tt)
send s method path body = (s, failed (api_error 409 (codes "dates_taken") (codes "taken")))

different : (a b : Text) → a ≢ b → same a b ≡ false
different a b ne = elim (Bool-cases (same a b)) [ inl e ↦ absurd (ne (same→eq a b e)) | inr e ↦ e ]

pub send-SetsOne : SetsOne plain send (λ s. s) unit_id
unfolding actions is_digit
send-SetsOne s s' id path index v p q = elim (Bool-cases (is_uuid id)) [
  | inr bad ↦
      let no : ◌≡◌ {A = Result Text} (failed (error (codes "invalid id " ++ id))) (returned path) =
        rw bad at p in
      absurd (cc)
  | inl good ↦
      let whole : ◌≡◌ {A = Result Text}
          (returned (codes "/units/00000000-0000-0000-0000-000000000001/images/" ++ (id ++ [])))
          (returned path) =
        rw good at p in
      let e : codes "/units/00000000-0000-0000-0000-000000000001/images/" ++ (id ++ []) ≡ path =
        cc in
      let from_path : id_in path ≡ id = ap id_in (sym e) ∙ append-nil id in
      let stored : (λ o. if same (id_in path) o then index else s o) ≡ s' = ap (λ x. x.0) q in
      (
        ap (λ f. f id) (sym stored) ∙ rw (from_path, same_refl id) refl,
        λ other ne. ap (λ f. f other) (sym stored) ∙ rw (from_path, different id other ne) refl,
      )
]

abbrev pub nowhere : Places
nowhere id = 0

get_or-reorder_images_example :
    (reorder_images plain send nowhere unit_id (image_2 ∷ image_1 ∷ [])).0 image_1 ≡ 1
unfolding actions is_digit
get_or-reorder_images_example =
    get_or-reorder_images plain send (λ s. s) unit_id send-SetsOne nowhere (image_2 ∷ image_1 ∷ [])
      1 ((λ e. unequal e, tt), (tt, tt)) (omega arith) refl
  where
    unequal : image_2 ≢ image_1
    unequal e = let bad : false ≡ true = ap (λ t. same t image_1) e ∙ same_refl image_1 in cc

runs :
    (money (some (negsuc 3)) ≡ 0)
    × ((create_block plain send nowhere unit_id (codes "2027-06-01") (codes "soon") (codes "")).1
        ≡ some (codes "dates_taken"))
    × ((create_block plain send nowhere (codes "../x") (codes "") (codes "") (codes "")).1
        ≡ some (codes "error"))
    × ((upload_image plain send nowhere unit_id
          ((codes "file", typed (codes "x")) ∷ [])).1.revalidated
        ≡ false)
unfolding actions is_digit
runs = (refl, refl, refl, refl)
