-- ===== src/StayPicker/Tests.antt =====
-- Runs of the stay picker, and its theorems at concrete ranges.
use sahel.Common.{◌+◌, ◌*◌, ◌≡◌, refl, ◌↔◌, true, false, none, some, [], ◌∷◌}
use sahel.Js.Text.{codes, before, is_empty}
use sahel.StayPicker.{Taken, is_taken, next_taken, can_pick, hit, keep_first, next_from}
use sahel.Js.Digits.{number_from}
use sahel.StayPicker.View.{
  this_month, is_at, turn_back, turn_on, shows_this_month, months, picking_out, cell_of,
}
use sahel.StayPicker.View.Turning.{month_at}
use sahel.StayPicker.Picks.{IsWellFormed}
use sahel.StayPicker.Stays.{FreeBetween, can_pick_iff}

picker : Unit {0}
unfolding is_taken next_taken next_from keep_first hit can_pick before is_empty
picker = tt

-- Nights 10 to 13 booked, 20 and 21 blocked.
abbrev taken : Taken
taken =
    record { start = codes "2027-06-20"; end = codes "2027-06-22" }
    ∷ record { start = codes "2027-06-10"; end = codes "2027-06-14" }
    ∷ []

runs :
    (next_taken (codes "2027-06-01") taken ≡ some (codes "2027-06-10"))
    × (next_taken (codes "2027-06-11") taken ≡ some (codes "2027-06-11"))
    × (next_taken (codes "2027-06-22") taken ≡ none)
    × (can_pick (codes "2027-06-10") (some (codes "2027-06-05")) none taken ≡ true)
    × (can_pick (codes "2027-06-12") (some (codes "2027-06-05")) none taken ≡ false)
    × (can_pick (codes "2027-06-12") (some (codes "2027-06-05")) (some (codes "2027-06-08")) taken
        ≡ false)
unfolding picker
runs = (refl, refl, refl, refl, refl, refl)

taken-IsWellFormed : IsWellFormed taken
unfolding picker
taken-IsWellFormed = (refl, (refl, tt))

can_pick_iff_example :
    (can_pick (codes "2027-06-10") (some (codes "2027-06-05")) none taken ≡ true)
    ↔ FreeBetween taken (codes "2027-06-05") (codes "2027-06-10")
unfolding picker
can_pick_iff_example =
    can_pick_iff taken taken-IsWellFormed (codes "2027-06-05") refl (codes "2027-06-10") none refl
      refl

calendar : Unit {0}
unfolding this_month is_at turn_back turn_on shows_this_month months picking_out cell_of number_from
calendar = tt

shown :
    (this_month (codes "2027-06-05") ≡ month_at (2027 * 12 + 5))
    × (shows_this_month (codes "2027-06-05") (some (month_at (2027 * 12 + 5))) ≡ false)
    × ((cell_of false
          (codes "2027-06-05")
          taken
          (record { check_in = some (codes "2027-06-06"); check_out = none })
          (codes "2027-06-10")).disabled
        ≡ false)
    × ((cell_of false
          (codes "2027-06-05")
          taken
          (record { check_in = none; check_out = none })
          (codes "2027-06-04")).disabled
        ≡ true)
unfolding picker calendar
shown = (refl, refl, refl, refl)
