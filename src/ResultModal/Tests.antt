-- ===== src/ResultModal/Tests.antt =====
-- A unit that was created, on a filtered page.
use sahel.Common.{◌≡◌, refl, true, false, some, [], ◌∷◌, ◌++◌}
use sahel.Js.Text.{codes, same}
use sahel.SearchParams.{Entries}
use sahel.Results.{created, outcome_entries, kind_of, get_param, delete_param, read_result}
use sahel.ResultModal.{State, initial_state, effect, close, is_open}
use sahel.ResultModal.Laws.{effect_lem}

abbrev own : Entries
own = (codes "status", codes "draft") ∷ []

abbrev landed : State
landed = initial_state (own ++ outcome_entries created (codes "Villa 7"))

modal : Unit {0}
unfolding same kind_of get_param delete_param read_result effect close is_open
modal = tt

runs :
    ((effect landed).params ≡ own)
    × (is_open (effect landed) ≡ true)
    × (is_open (effect (close (effect landed))) ≡ false)
unfolding modal
runs = (refl, refl, refl)

effect_lem_example :
    (effect landed
      ≡ record { result = some (record { kind = created; name = codes "Villa 7" }); params = own })
    × (effect (effect landed) ≡ effect landed)
    × (effect (close (effect landed)) ≡ close (effect landed))
unfolding modal
effect_lem_example = effect_lem (initial_state []) own created (codes "Villa 7") ((refl, refl), tt)
