-- ===== src/ImageManager.antt =====
-- web/src/components/admin/image-manager.tsx and image-preview.tsx: what the handlers do, with the
-- server actions of InPlace/Images. Toasts and the refresh of the page are left out.
pub mod Moves
mod Tests
use sahel.Common.{
  ℕ, zero, suc, ◌+◌, ◌-◌, Bool, true, false, not, ◌&&◌, Option, none, some, List, [], ◌∷◌, ◌++◌,
  map, ltb, ◌==◌, if◌then◌else◌,
}
use sahel.Common.Lists.{length}
use sahel.Js.Text.{Text, codes, same, is_empty}
use sahel.AdminTypes.{UnitImage}
use sahel.Api.{Result, Method, Outcome, Answer, shows, redirects, or_else}
use sahel.FormFields.{FormData, file, unless_blank}
use sahel.InPlace.{Body}
use sahel.InPlace.Images.{upload_image, update_image, delete_image, reorder_images}

-- The modal of a result: images uploaded, with their count, or one deleted.
pub data Notice : Type 0 where
  uploaded : (count : ℕ) → Notice
  image_deleted : Notice

pub record State : Type 0 where
  pub error : Option Text
  pub confirming : Option UnitImage
  pub result : Option Notice
  pub preview : Option ℕ

abbrev pub initial_state : State
initial_state = record { error = none; confirming = none; result = none; preview = none }

-- The error of an action's outcome, if it has one that is not blank.
abbrev pub error_in : Answer → Option Text
error_in (shows none) = none
error_in (shows (some e)) = unless_blank e
error_in (redirects path) = none

abbrev pub error_of : Outcome → Option Text
error_of o = error_in o.answer

abbrev pub settle : (State → State) → Option Text → State → State
settle on_success none s = on_success (record s { error = none })
settle on_success (some e) s = record s { error = some e }

-- `run`: the API after the task, and the state after its outcome.
abbrev pub run {ℓ} : {A : Type ℓ} → (State → State) → State → A × Option Text → A × State
run on_success s (api, outcome) = (api, settle on_success outcome s)

pub record File : Type 0 where
  pub name : Text
  pub size : ℕ

-- The identifiers of two neighbours are exchanged.
unfoldable pub swap_next {ℓ} : {A : Type ℓ} → ℕ → List A → List A
swap_next i [] = []
swap_next i (x ∷ []) = x ∷ []
swap_next zero (x ∷ y ∷ xs) = y ∷ x ∷ xs
swap_next (suc i) (x ∷ y ∷ xs) = x ∷ swap_next i (y ∷ xs)

abbrev pub plain_outcome {ℓ} : {A : Type ℓ} → A × Outcome → A × Option Text
plain_outcome (api, o) = (api, error_of o)

module _ {A V : Type 0} (stringify : Text → Text)
    (send : A → Method → Text → Option Body → A × Result V) (unit_id : Text) where
  abbrev pub then_next : Text → A × Outcome → (A → A × Option Text) → A × Option Text
  then_next name (api, o) rest = elim (error_of o) [
    | none ↦ rest api
    | some e ↦ (api, some (name ++ (codes ": " ++ e)))
  ]

  -- One upload for each file, until one fails.
  unfoldable pub upload_from : List File → A → A × Option Text
  upload_from [] api = (api, none)
  upload_from (f ∷ files) api =
      then_next f.name
        (upload_image stringify send api unit_id ((codes "file", file f.name f.size) ∷ []))
        (λ next. upload_from files next)

  unfoldable pub upload_all : List File → A → State → A × State
  upload_all files api s =
      run (λ t. record t { result = some (uploaded (length files)) }) s (upload_from files api)

  -- `move` by 1; the button is disabled at the last image.
  unfoldable pub move_later : ℕ → List UnitImage → A → State → A × State
  move_later index images api s =
      run (λ t. t) s
        (plain_outcome
          (reorder_images stringify send api unit_id (swap_next index (map (λ i. i.id) images))))

  -- `move` by -1; the button is disabled at the first image.
  unfoldable pub move_earlier : ℕ → List UnitImage → A → State → A × State
  move_earlier zero images api s = (api, s)
  move_earlier (suc index) images api s = move_later index images api s

  abbrev pub save_text : Bool → UnitImage → Text → Option Text → Option Text → A → State → A × State
  save_text is_same img value ar en api s =
      if is_same
      then (api, s)
      else run (λ t. t) s
          (plain_outcome (update_image stringify send api unit_id img.id ar en none))

  -- Leaving a field whose text is not changed asks for nothing.
  unfoldable pub save_alt_ar : UnitImage → Text → A → State → A × State
  save_alt_ar img value api s =
      save_text (same value (or_else img.alt_ar [])) img value (some value) none api s

  unfoldable pub save_alt_en : UnitImage → Text → A → State → A × State
  save_alt_en img value api s =
      save_text (same value (or_else img.alt_en [])) img value none (some value) api s

  unfoldable pub make_cover : UnitImage → A → State → A × State
  make_cover img api s =
      run (λ t. t) s
        (plain_outcome (update_image stringify send api unit_id img.id none none (some true)))

  abbrev pub delete_one : Option UnitImage → A → State → A × State
  delete_one none api s = (api, s)
  delete_one (some img) api s =
      run (λ t. record t { result = some image_deleted }) (record s { confirming = none })
        (plain_outcome (delete_image stringify send api unit_id img.id))

  unfoldable pub confirm_delete : A → State → A × State
  confirm_delete api s = delete_one s.confirming api s

-- The arrow keys of the preview, of which the one that goes back depends on the direction.
unfoldable pub preview_key : List UnitImage → ℕ → Bool → Bool → ℕ
preview_key images current rtl right =
    let forward = if rtl then not right else right in
    if forward
    then if ltb (current + 1) (length images) then current + 1 else current
    else if ltb 0 current
    then current - 1
    else current
