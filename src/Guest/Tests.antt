-- ===== src/Guest/Tests.antt =====
-- A guest signs in and books a stay, and the theorems there.
use sahel.Common.{◌≡◌, ◌↔◌, refl, Option, none, some, [], ◌∷◌, if◌then◌else◌}
use sahel.Js.Text.{Text, codes, is_empty, same}
use sahel.Js.Digits.{numeral, digits}
use sahel.Js.Date.{dates}
use sahel.Api.{Result, returned, failed, error, Response}
use sahel.Guest.{
  GuestRequest, GuestBody, strip_slashes, api_url, read_reply, guest_fetch, current_guest, ok,
  refused, sign_in, book_stay,
}
use sahel.Js.Text.{starts_with}
use sahel.Js.Digits.{is_digit}
use sahel.FormFields.{FormData, file, get_field}
use sahel.Guest.Receipts.{is_ref_char, is_ref, Receipt, upload_receipt}
use sahel.Guest.Upload.{IsReference, IsSent, upload_receipt-IsSent}

guest : Unit {0}
unfolding dates is_empty same numeral digits strip_slashes api_url read_reply guest_fetch
    current_guest sign_in book_stay
guest = tt

abbrev plain : Text → Text
plain s = s

abbrev code : Text → Option Text
code s = some s

abbrev base : Text
base = codes "http://api//"

-- An API that knows one address and refuses the rest.
abbrev network : GuestRequest GuestBody → Result (Response Text)
network r =
    if same r.url (codes "http://api/api/v1/auth/login")
    then returned (record { status = 200; body = some (codes "t1") })
    else if same r.url (codes "http://api/api/v1/bookings")
    then returned (record { status = 201; body = some (codes "BES-12345") })
    else returned (record { status = 503; body = none })

runs :
    ((sign_in code plain base network none plain (codes "010") (codes "pw")).kept
      ≡ some (codes "t1"))
    × (book_stay code plain base network none plain
          (codes "u")
          (codes "2027-06-01")
          (codes "soon")
          (some 2)
        ≡ returned (refused (codes "invalid_range")))
    × (current_guest code plain base network (some (codes "t1"))
        ≡ failed (error (codes "API /me answered 503")))
unfolding guest
runs = (refl, refl, refl)

-- An API that takes every receipt.
abbrev taking : GuestRequest Receipt → Result (Response Text)
taking r = returned (record { status = 201; body = none })

abbrev receipt_form : FormData
receipt_form = (codes "file", file (codes "a.png") 2048) ∷ []

upload_receipt-IsSent_example :
    (upload_receipt code plain base taking (some (codes "t1")) (codes "BES-1A2B3") receipt_form
      ≡ returned (ok none))
    ↔ (IsReference (codes "BES-1A2B3")
        × IsSent code plain base taking (some (codes "t1")) (codes "BES-1A2B3") receipt_form)
upload_receipt-IsSent_example =
    upload_receipt-IsSent code plain base taking (some (codes "t1")) (codes "BES-1A2B3")
      receipt_form

accepted :
    upload_receipt code plain base taking (some (codes "t1")) (codes "BES-1A2B3") receipt_form
    ≡ returned (ok none)
unfolding same is_digit starts_with is_ref_char is_ref get_field upload_receipt
accepted = refl
