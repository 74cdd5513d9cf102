-- ===== src/Unsaved/Tests.antt =====
-- Leaving a form by a link, and the theorems there.
use sahel.Common.{◌≡◌, refl, ◌⊎◌, true, false, none, some, List, [], ◌∷◌}
use sahel.Js.Text.{Text, codes, same, starts_with}
use sahel.Unsaved.{
  needs_leave_prompt, push, back, is_dirty, set_dirty, confirm_leave, press_back, stay, leave,
  Click, click_link, Event, edits, clicks, backs, stays, leaves, next, after,
}
use sahel.Unsaved.Laws.{next_lem}

guard : Unit {0}
unfolding same starts_with needs_leave_prompt is_dirty set_dirty confirm_leave press_back stay leave
    click_link next after
guard = tt

abbrev click : Click
click = record { button = 0; with_key = false; new_tab = false; prevented = false }

abbrev units : Text
units = codes "/dashboard/units"

-- Last first.
abbrev asked : List Event
asked = clicks click units ∷ edits (codes "area") true ∷ []

runs :
    ((next (after (edits (codes "area") true ∷ [])) (clicks click units)).1 ≡ none)
    × ((next (after asked) leaves).1 ≡ some (push units))
    × ((next (after (stays ∷ asked)) leaves).1 ≡ none)
    × ((next (after []) backs).1 ≡ some back)
unfolding guard
runs = (refl, refl, refl, refl)

next_lem_example :
    (is_dirty (after asked) ≡ false)
    ⊎ ((leaves ≡ leaves)
        × ((after asked).asking ≡ true)
        × ((after asked).pending ≡ some (push units)))
    ⊎ ((href : Text) × (push units ≡ push href) × (starts_with href (codes "#") ≡ true))
unfolding guard
next_lem_example = next_lem (after asked) leaves (push units) refl
