-- ===== src/EntityForm/Tests.antt =====
-- A form that is edited, saved, and answered with an error.
use sahel.Common.{◌≡◌, ◌≢◌, refl, true, false, none, some, List, [], ◌∷◌}
use sahel.Js.Text.{Text, codes, is_empty, same}
use sahel.Unsaved.{push, confirm_leave, set_dirty, is_dirty}
use sahel.EntityForm.{
  Event, edits, submits, answers, mark, edit, submit, answered, next, after, unmount,
}
use sahel.EntityForm.Laws.{confirm_leave-after}
use sahel.EntityForm.Deletion
use sahel.EntityForm.Deletion.{closed, press_delete, cancel, confirm}

abbrev unit_form : Text
unit_form = codes "unit"

-- The last event first.
abbrev refused : List Event
refused = answers (some (codes "bad")) ∷ submits ∷ edits ∷ edits ∷ []

form : Unit {0}
unfolding mark edit submit answered next after unmount confirm_leave set_dirty is_dirty same
    is_empty press_delete cancel confirm Deletion.answered
form = tt

runs :
    ((after unit_form refused).dirty ≡ true)
    × ((after unit_form (answers none ∷ submits ∷ edits ∷ [])).guard.dirty_forms ≡ [])
    × ((confirm (press_delete closed)).1 ≡ true)
    × ((cancel (confirm (press_delete closed)).0).is_open ≡ true)
    × ((Deletion.answered (some (codes "in_use")) (confirm (press_delete closed)).0).banner
        ≡ some (codes "in_use"))
unfolding form
runs = (refl, refl, refl, refl, refl)

confirm_leave-after_example :
    ((confirm_leave (push (codes "/x")) (after unit_form refused).guard).1 ≡ none)
    × ((after unit_form refused).pending ≡ false
        → (after unit_form refused).error ≢ none
        → (confirm_leave (push (codes "/x")) (after unit_form refused).guard).1 ≡ none)
    × ((confirm_leave (push (codes "/x")) (unmount unit_form (after unit_form refused))).1
        ≡ some (push (codes "/x")))
unfolding form
confirm_leave-after_example = confirm_leave-after unit_form (push (codes "/x")) refused
