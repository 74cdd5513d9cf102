-- ===== src/FilterBar/Laws.antt =====
-- What the page's query reads after a change.
use sahel.Common.{
  ◌≡◌, refl, ap, ◌∙◌, inl, inr, false, not, Option, none, some, [], ◌∷◌, Bool-cases, if◌then◌else◌,
}
use sahel.Js.Text.{Text, same, same_refl, is_empty}
use sahel.Js.Text.Trim.{trim}
use sahel.SearchParams.{Entries}
use sahel.Results.{get_param}
use sahel.Results.Params.{get_delete, get_set}
use sahel.Labels.{text_or_blank}
use sahel.FilterBar.{
  State, q_key, change, changed, apply, typed_change, is_waiting, elapse, lands, next,
}

-- A value as a parameter: a blank one is not given.
abbrev pub given : Text → Option Text
given value = if is_empty value then none else some value

change_lem :
    (key value : Text) (params : Entries) (k : Text)
    → get_param (change (key, value) params) k
      ≡ (if same key k then given value else get_param params k)
change_lem key value params k = elim (Bool-cases (is_empty value)) [
  | inl e ↦ rw e (get_delete params key k)
  | inr e ↦ rw e (get_set params key value k)
]

text-given : (value : Text) → text_or_blank (given value) ≡ value
unfolding is_empty
text-given [] = refl
text-given (c ∷ value) = refl

-- What the wait ends with.
abbrev pub ended : State → State
ended s = apply (typed_change s) s

ended_lem :
    (s : State) (name : Text)
    → get_param (ended s).params name
      ≡ (if same q_key name then given (trim s.q) else get_param s.params name)
unfolding apply changed
ended_lem s name = change_lem q_key (trim s.q) s.params name

ended-q : (s : State) → get_param (ended s).params q_key ≡ given (trim s.q)
ended-q s = ended_lem s q_key ∙ rw (same_refl q_key) refl

settled : (s : State) → is_waiting (ended s) ≡ false
unfolding is_waiting apply
settled s =
    ap (λ (o : Option Text). not (same (trim s.q) (text_or_blank o))) (ended-q s)
    ∙ rw (text-given (trim s.q), same_refl (trim s.q)) refl

-- When the wait of the search field is over, nothing is waited for any more: the parameter q then
-- reads as the trimmed text, and is missing for a blank one, where the bar was waiting, and as
-- before where it was not; every other parameter reads as before.
pub elapse_lem :
    (s : State)
    → (is_waiting (elapse s) ≡ false)
      × (get_param (elapse s).params q_key
          ≡ (if is_waiting s then given (trim s.q) else get_param s.params q_key))
      × ((name : Text)
          → same q_key name ≡ false
          → get_param (elapse s).params name ≡ get_param s.params name)
unfolding elapse
elapse_lem s = elim (Bool-cases (is_waiting s)) [
  | inl e ↦ rw e (settled s, ended-q s, λ name h. ended_lem s name ∙ rw h refl)
  | inr e ↦ rw e (e, refl, λ name h. refl)
]

-- A navigation back to a list without a search is taken back: the field keeps its text.
given_full :
    (value : Text) → is_empty value ≡ false → (given value ≡ some value) × (same value [] ≡ false)
unfolding is_empty same
given_full [] h = cc
given_full (c ∷ value) h = (refl, refl)

elapse-lands :
    (s : State) (params : Entries)
    → is_empty (trim s.q) ≡ false
    → get_param params q_key ≡ none
    → get_param (elapse (next s (lands params))).params q_key ≡ some (trim s.q)
unfolding next elapse is_waiting
elapse-lands s params h e =
    let (full, apart) = given_full (trim s.q) h in
    rw (e, apart) (ended-q (record { q = s.q; params = params }) ∙ full)
