-- ===== src/Results/Params.antt =====
-- Reading URLSearchParams after a change.
use sahel.Common.{
  ◌≡◌, refl, ◌∙◌, inl, inr, Bool, true, false, Option, none, some, [], ◌∷◌, Bool-cases,
  if◌then◌else◌,
}
use sahel.Js.Text.{Text, same, same→eq}
use sahel.SearchParams.{Entries}
use sahel.Results.{get_param, delete_param, set_param}

pub same_ne : (n key k : Text) → same n key ≡ false → same n k ≡ true → same key k ≡ false
same_ne n key k h e = elim (Bool-cases (same key k)) [ inl g ↦ cc (same→eq key k g) | inr g ↦ g ]

-- What stands behind an entry of another name, for the reading of a name.
behind :
    (n v key k : Text) (here : Option Text) (rest old : Option Text)
    → same n key ≡ false
    → rest ≡ (if same key k then here else old)
    → (if same n k then some v else rest)
      ≡ (if same key k then here else if same n k then some v else old)
behind n v key k here rest old h e = elim (Bool-cases (same n k)) [
  | inl g ↦ rw (g, same_ne n key k h g) refl
  | inr g ↦ rw g e
]

chosen_twice :
    (b : Bool) (here v old : Option Text)
    → (if b then here else old) ≡ (if b then here else if b then v else old)
chosen_twice true here v old = refl
chosen_twice false here v old = refl

other_chosen :
    (b : Bool) (here v w old : Option Text)
    → (if b then here else if b then v else old) ≡ (if b then here else if b then w else old)
other_chosen true here v w old = refl
other_chosen false here v w old = refl

pub get_delete :
    (es : Entries) (key k : Text)
    → get_param (delete_param es key) k ≡ (if same key k then none else get_param es k)
unfolding get_param delete_param
get_delete [] key k = elim (Bool-cases (same key k)) [ inl e ↦ rw e refl | inr e ↦ rw e refl ]
get_delete ((n, v) ∷ es) key k = elim (Bool-cases (same n key)) [
  | inl e ↦ rw e (
      get_delete es key k
      ∙ rw (same→eq n key e) (chosen_twice (same key k) none (some v) (get_param es k)))
  | inr e ↦ rw e (
      behind n v key k none (get_param (delete_param es key) k) (get_param es k) e
        (get_delete es key k))
]

pub get_set :
    (es : Entries) (key value k : Text)
    → get_param (set_param es key value) k ≡ (if same key k then some value else get_param es k)
unfolding get_param set_param
get_set [] key value k = refl
get_set ((n, v) ∷ es) key value k = elim (Bool-cases (same n key)) [
  | inl e ↦
      rw (e, same→eq n key e, get_delete es key k)
        (other_chosen (same key k) (some value) none (some v) (get_param es k))
  | inr e ↦ rw e (
      behind n v key k (some value) (get_param (set_param es key value) k) (get_param es k) e
        (get_set es key value k))
]
