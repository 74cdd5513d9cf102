-- ===== src/NavProgress/Tests.antt =====
-- Clicks that start the bar, and a navigation that is called off.
use sahel.Common.{◌≡◌, refl, true, false, some, arith}
use sahel.Js.Text.{codes, same, is_empty}
use sahel.NavProgress.{
  Place, Press, initial_state, done, finish, start, stop, landed, tick, starts, stops,
  starts_on_click, starts_on_submit, next,
}
use sahel.NavProgress.Laws.{begun, moved, tick-tick}

abbrev home : Place
home = record { origin = codes "https://sahel"; pathname = codes "/ar"; search = codes "" }

abbrev search : Place
search = record home { pathname = codes "/ar/search" }

abbrev press_on : Place → Press
press_on p = record {
  button = 0;
  with_key = false;
  link = some (record { target = codes ""; has_download = false; place = p });
}

bar : Unit {0}
unfolding same is_empty finish start stop landed tick starts_on_click starts_on_submit next
bar = tt

runs :
    (starts_on_click home (press_on search) ≡ true)
    × (starts_on_click home (press_on home) ≡ false)
    × ((tick 15007 (stop (start 7 initial_state))).phase ≡ done)
    × ((landed 9 (start 7 initial_state)).fade ≡ some 409)
unfolding bar
runs = (refl, refl, refl, refl)

tick-tick_example :
    tick 15805 (tick 15405 (next 5 (next 3 initial_state starts) stops)) ≡ initial_state
tick-tick_example =
    tick-tick 5 15405 (next 5 (next 3 initial_state starts) stops)
      (moved 3 5 (next 3 initial_state starts) stops
        (moved 0 3 initial_state starts begun (omega arith)) (omega arith))
      (omega arith)
