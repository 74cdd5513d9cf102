-- ===== src/BookingPage/Tests.antt =====
-- A booking that is looked up by its reference.
use sahel.Common.{◌≡◌, refl, false, Option, none, some, if◌then◌else◌}
use sahel.Js.Text.{Text, codes, is_empty, same, starts_with}
use sahel.Js.Digits.{is_digit}
use sahel.Api.{Result, returned, Response}
use sahel.Guest.{GuestRequest, GuestBody, api_url, strip_slashes, read_reply}
use sahel.BookingPage.{is_ref_char, is_ref, last_4, lookup_query, lookup, panel_of, payment}
use sahel.BookingPage.Laws.{lookup_lem}

abbrev plain : Text → Text
plain s = s

abbrev no_code : Text → Option Text
no_code s = none

abbrev network : GuestRequest GuestBody → Result (Response Text)
network r =
    if same r.url (codes "http://api/api/v1/bookings/BES-7KQ2M?phone_last4=4321")
    then returned (record { status = 200; body = some (codes "booking") })
    else returned (record { status = 404; body = none })

-- Another, which has nothing for a guest who is signed in.
abbrev other : GuestRequest GuestBody → Result (Response Text)
other r = elim r.authorization [
  | none ↦ network r
  | some token ↦ returned (record { status = 404; body = none })
]

page : Unit {0}
unfolding is_empty same starts_with is_digit api_url strip_slashes read_reply is_ref_char is_ref
    last_4 lookup_query lookup panel_of
page = tt

runs :
    (is_ref (codes "BES-7KQ2L") ≡ false)
    × (lookup plain no_code plain (codes "http://api/") network none (codes "BES-7KQ2M") none
        ≡ returned none)
    × (panel_of (codes "pending_payment") ≡ payment)
unfolding page
runs = (refl, refl, refl)

lookup_lem_example :
    lookup plain no_code plain
      (codes "http://api/")
      other
      none
      (codes "BES-7KQ2M")
      (some (codes "43-21 0"))
    ≡ returned (some (codes "booking"))
unfolding page
lookup_lem_example =
    lookup_lem plain no_code plain (codes "http://api/") other network none (codes "BES-7KQ2M")
      (some (codes "43-21 0")) (λ ref query h q. refl)
