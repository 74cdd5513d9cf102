-- ===== src/FormFields.antt =====
-- web/src/lib/admin/form.ts: the fields of a form, as the admin's server actions read them. A form
-- is its entries in order. `Number` is a parameter, into numbers of its own with one for NaN.
pub mod Laws
mod Tests
use sahel.Common.{
  ℕ, Bool, true, false, not, ◌||◌, Option, none, some, List, [], ◌∷◌, ◌++◌, map, ◌==◌,
  if◌then◌else◌,
}
use sahel.Common.Lists.{keep}
use sahel.Js.Text.{Text, codes, same, is_empty}
use sahel.Js.Text.Trim.{trim}
use sahel.Money.{to_piasters}

pub data Value : Type 0 where
  typed : (s : Text) → Value
  file : (name : Text) (size : ℕ) → Value

abbrev pub FormData : Type 0
FormData = List (Text × Value)

-- fd.get(key)
unfoldable pub get_field : FormData → Text → Option Value
get_field [] key = none
get_field ((k, v) ∷ fd) key = if same k key then some v else get_field fd key

-- String(value ?? "")
abbrev pub string_of : Option Value → Text
string_of none = []
string_of (some (typed s)) = s
string_of (some (file name size)) = codes "[object File]"

unfoldable pub text : FormData → Text → Text
text fd key = trim (string_of (get_field fd key))

-- s || undefined, and s || null
abbrev pub unless_blank : Text → Option Text
unless_blank s = if is_empty s then none else some s

unfoldable pub optional : FormData → Text → Option Text
optional fd key = unless_blank (text fd key)

unfoldable pub ref : FormData → Text → Option Text
ref fd key = unless_blank (text fd key)

module _ {N : Type 0} (to_number : Text → N) where
  unfoldable pub int : FormData → Text → Option N
  int fd key = let v = text fd key in if is_empty v then none else some (to_number v)

  unfoldable pub nullable_number : FormData → Text → Option N
  nullable_number fd key = let v = text fd key in if is_empty v then none else some (to_number v)

abbrev is_on : Option Value → Bool
is_on none = false
is_on (some (typed s)) = same s (codes "on")
is_on (some (file name size)) = false

unfoldable pub checkbox : FormData → Text → Bool
checkbox fd key = is_on (get_field fd key)

-- A Latin comma, an Arabic one, or the end of a line.
unfoldable pub is_separator : ℕ → Bool
is_separator c = (c == b',') || (c == 0x060c) || (c == 10)

abbrev pub grow_first : ℕ → List Text → List Text
grow_first c [] = (c ∷ []) ∷ []
grow_first c (s ∷ parts) = (c ∷ s) ∷ parts

-- s.split(/[,\u060c\n]/)
unfoldable pub split : Text → List Text
split [] = [] ∷ []
split (c ∷ s) = let parts = split s in if is_separator c then [] ∷ parts else grow_first c parts

unfoldable pub items_of : Text → List Text
items_of s = keep (λ t. not (is_empty t)) (map trim (split s))

unfoldable pub list : FormData → Text → List Text
list fd key = items_of (text fd key)

-- items.join, with an Arabic comma and a space: what the form of a record shows of its list.
abbrev pub join_from : Text → List Text → Text
join_from x [] = x
join_from x (y ∷ ys) = x ++ 0x060c ∷ 32 ∷ join_from y ys

abbrev pub shown_list : List Text → Text
shown_list [] = []
shown_list (x ∷ xs) = join_from x xs

unfoldable pub nullable_piasters : FormData → Text → Option ℕ
nullable_piasters fd key = to_piasters (text fd key)

unfoldable pub piasters : FormData → Text → Option ℕ
piasters fd key = to_piasters (text fd key)
