-- ===== src/Gallery/Tests.antt =====
-- Three photos, seen from right to left.
use sahel.Common.{ℕ, ◌+◌, ◌%◌, ◌<◌, ◌≡◌, refl, true, false, none, some, List, [], ◌∷◌, arith}
use sahel.Gallery.{
  forward, backward, moved, arrow_direction, swipe_direction, step, left, right, Event, opens,
  arrows, presses, lifts, next, after,
}
use sahel.Gallery.Laws.{moves, after_lem}

abbrev seen : List (Event true 3)
seen = arrows left ∷ lifts 180 ∷ presses 100 ∷ arrows right ∷ opens 1 ∷ []

lightbox : Unit {0}
unfolding moved arrow_direction swipe_direction step next after
lightbox = tt

runs :
    ((after true 3 seen).index ≡ 2)
    × (swipe_direction false 100 80 ≡ none)
    × (swipe_direction false 100 20 ≡ some forward)
unfolding lightbox
runs = (refl, refl, refl)

after_lem_example :
    (2 < 3)
    × (moved 3 backward (moved 3 forward 2) ≡ 2)
    × (moved 3 forward (moved 3 backward 2) ≡ 2)
    × ((n : ℕ) → moves 3 n 2 ≡ (2 + n) % 3)
unfolding lightbox
after_lem_example = after_lem true 3 seen (omega arith)
