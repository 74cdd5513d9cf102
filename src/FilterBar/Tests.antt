-- ===== src/FilterBar/Tests.antt =====
-- A search that is typed in a list with a filter.
use sahel.Common.{◌≡◌, refl, true, false, some, [], ◌∷◌}
use sahel.Js.Text.{Text, codes, same, is_empty}
use sahel.Js.Text.Trim.{trim, trim_start, trim_end, is_space}
use sahel.Results.{get_param, set_param, delete_param}
use sahel.FilterBar.{
  State, q_key, initial_state, changed, apply, is_waiting, elapse, is_active, types, lands, next,
}
use sahel.FilterBar.Laws.{elapse_lem}

abbrev held : State
held = next (initial_state ((codes "status", codes "held") ∷ [])) (types (codes " sea "))

bar : Unit {0}
unfolding changed apply is_waiting elapse is_active next get_param set_param delete_param same
    is_empty trim trim_start trim_end
bar = tt

runs :
    ((elapse held).params ≡ (codes "status", codes "held") ∷ (q_key, codes "sea") ∷ [])
    × (is_waiting (elapse held) ≡ false)
    × (is_active [] [] (elapse held) ≡ true)
    × ((elapse (next (elapse held) (lands []))).params ≡ (q_key, codes "sea") ∷ [])
unfolding bar is_space
runs = (refl, refl, refl, refl)

elapse_lem_example :
    (is_waiting (elapse held) ≡ false)
    × (get_param (elapse held).params q_key ≡ some (codes "sea"))
    × ((name : Text)
        → same q_key name ≡ false
        → get_param (elapse held).params name ≡ get_param held.params name)
unfolding bar is_space
elapse_lem_example = elapse_lem held
