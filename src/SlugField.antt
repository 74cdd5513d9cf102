-- ===== src/SlugField.antt =====
-- web/src/components/admin/slug-field.tsx and web/src/app/[locale]/dashboard/slug-action.ts. `fold`
-- is the one of Slug, `encode` is encodeURIComponent, and `get` is adminGet of records, each by
-- its identifier. A check that fails is not caught and leaves the field as it is.
pub mod Laws
mod Tests
use sahel.Common.{
  Bool, true, false, not, ◌||◌, Option, none, some, List, [], ◌∷◌, ◌++◌, if◌then◌else◌,
}
use sahel.Common.Lists.{any}
use sahel.Js.Text.{Text, codes, same, is_empty}
use sahel.Api.{Result, returned, failed}
use sahel.Slug.{slugify}

abbrev pub sluggable : List Text
sluggable = codes "areas" ∷ codes "compounds" ∷ codes "units" ∷ []

abbrev pub is_other : Option Text → Text → Bool
is_other none id = true
is_other (some current) id = not (same id current)

abbrev pub any_other : Option Text → Result (List Text) → Result Bool
any_other current (failed e) = failed e
any_other current (returned ids) = returned (any (is_other current) ids)

unfoldable pub slug_taken :
    (Text → Text) → (Text → Result (List Text)) → Text → Text → Option Text → Result Bool
slug_taken encode get entity slug current =
    if not (any (λ e. same e entity) sluggable) || is_empty slug
    then returned false
    else any_other current (get (b'/' ∷ (entity ++ (codes "?slug=" ++ encode slug))))

pub data Status : Type 0 where
  idle : Status
  checking : Status
  taken : Status
  free : Status

-- The field's text, what it says, and the values whose checks are not answered, the first asked
-- for first.
pub record State : Type 0 where
  pub value : Text
  pub status : Status
  pub asked : List Text

abbrev pub initial_state : Option Text → State
initial_state none = record { value = []; status = idle; asked = [] }
initial_state (some value) = record { value = value; status = idle; asked = [] }

-- Typing alone is not checked.
abbrev pub type_slug : Text → State → State
type_slug value s = record s { value = value }

-- check, up to its answer.
unfoldable pub check : State → State
check s =
    if is_empty s.value
    then record s { status = idle }
    else record s { status = checking; asked = s.asked ++ (s.value ∷ []) }

abbrev pub told : Result Bool → Status → Status
told (returned true) status = taken
told (returned false) status = free
told (failed e) status = status

module _ (fold : Text → Text) where
  -- onBlur, with what is typed
  unfoldable pub blur : Text → State → State
  blur typed s = check (record s { value = slugify fold typed })

  -- The blur of the field with the name.
  unfoldable pub fill : Text → State → State
  fill source s = if is_empty s.value then check (record s { value = slugify fold source }) else s

  unfoldable pub blur_all : List Text → State → State
  blur_all [] s = s
  blur_all (typed ∷ texts) s = blur_all texts (blur typed s)

module _ (ask : Text → Result Bool) where
  -- The answer to the check of a value.
  unfoldable pub answer : Text → State → State
  answer value s = record s { status = told (ask value) s.status }

  abbrev pub answer_each : List Text → State → State
  answer_each [] s = s
  answer_each (value ∷ values) s = answer_each values (answer value s)

  -- All answers, in the order of the checks.
  unfoldable pub answer_all : State → State
  answer_all s = answer_each s.asked (record s { asked = [] })
