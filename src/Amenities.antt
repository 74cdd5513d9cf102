-- ===== src/Amenities.antt =====
-- web/src/lib/public/amenities.ts: the amenities of a unit and of its compound in one list. `lower`
-- is toLowerCase, which the platform gives.
pub mod Laws
mod Tests
use sahel.Common.{Bool, true, false, ◌||◌, Option, none, some, List, [], ◌∷◌, ◌++◌, if◌then◌else◌}
use sahel.Common.Lists.{any}
use sahel.Js.Text.{Text, same, is_empty}
use sahel.Js.Text.Trim.{trim}

abbrev pub or_none : Option (List Text) → List Text
or_none none = []
or_none (some xs) = xs

abbrev pub has_key : List Text → Text → Bool
has_key seen key = any (λ k. same k key) seen

module _ (lower : Text → Text) where
  -- The loop, with the keys that were seen.
  unfoldable pub merge_from : List Text → List Text → List Text
  merge_from seen [] = []
  merge_from seen (raw ∷ rest) =
      let item = trim raw in
      let skipped = merge_from seen rest in
      let kept = item ∷ merge_from (lower item ∷ seen) rest in
      if is_empty item || has_key seen (lower item) then skipped else kept

  unfoldable pub merge_amenities : Option (List Text) → Option (List Text) → List Text
  merge_amenities unit compound = merge_from [] (or_none unit ++ or_none compound)
