-- ===== src/Api/Tests.antt =====
-- Runs of the API client, and its theorems at concrete requests.
use sahel.Common.{◌≡◌, refl, ◌↔◌, true, Option, none, some, if◌then◌else◌}
use sahel.Js.Text.{Text, codes, is_empty, same}
use sahel.Js.Digits.{is_digit, numeral, digits}
use sahel.Api.{
  Result, returned, failed, error, Env, api_base, Request, Response, Body, json, post,
  authorization, read_response, admin_fetch, redirects, get_or_404, mutate, is_uuid, assert_id,
}
use sahel.Api.Laws.{IsAccepted, mutate-admin_fetch}

api : Unit {0}
unfolding is_empty is_digit numeral digits api_base authorization read_response admin_fetch
    get_or_404 mutate is_uuid assert_id same
api = tt

abbrev plain : Text → Text
plain s = s

abbrev unit_id : Text
unit_id = codes "0b1d3c5e-7A9f-4b2d-8c6e-112233445566"

-- The JSON of these runs is the code of an error.
abbrev code : Text → Option Text
code s = some s

abbrev missing : Response Text
missing = record { status = 404; body = some (codes "not_found") }

-- An API that creates what is asked for with the right password.
abbrev network : Request (Body Text) → Result (Response Text)
network r =
    if same r.authorization (codes "Basic admin:pw")
    then returned (record { status = 201; body = some (codes "made") })
    else returned (record { status = 401; body = none })

abbrev env : Env
env = record { api_url = none; next_public_api_url = none; admin_password = some (codes "pw") }

abbrev next : Option Text → Text
next v = codes "/dashboard"

mutate-admin_fetch_example :
    ((mutate
        (admin_fetch plain code code network env post (codes "/bookings") (some (json (codes "b"))))
        next).revalidated
      ≡ true)
    ↔ IsAccepted plain code code network env post (codes "/bookings") (some (json (codes "b")))
mutate-admin_fetch_example =
    mutate-admin_fetch plain code code network env post (codes "/bookings")
      (some (json (codes "b"))) next

runs :
    (mutate (admin_fetch plain code code network env post (codes "/bookings") none) next
      ≡ record { revalidated = true; answer = redirects (codes "/dashboard") })
    × (assert_id plain (codes "../x") ≡ failed (error (codes "invalid id ../x")))
unfolding api
runs = (refl, refl)
