-- ===== src/Api/Receipts/Tests.antt =====
-- A receipt that the API has, and one that it has not.
use sahel.Common.{◌≡◌, refl, false, Option, none, some, if◌then◌else◌}
use sahel.Js.Text.{Text, codes, is_empty, same}
use sahel.Js.Digits.{is_digit}
use sahel.Api.{Result, returned, Env, api_base, authorization, is_uuid, assert_id}
use sahel.Api.Receipts.{RawRequest, RawResponse, admin_raw, get_proof}
use sahel.Api.Receipts.Laws.{IsOutcome, IsStreamed, no_file, with_file, get_proof_lem}

abbrev plain : Text → Text
plain s = s

abbrev env : Env
env = record { api_url = none; next_public_api_url = none; admin_password = some (codes "pw") }

abbrev held : Text
held = codes "00000000-0000-0000-0000-000000000001"

abbrev network : RawRequest → Result (RawResponse Text)
network r =
    if same r.url (
      codes
        "http://localhost:8090/api/v1/admin/payments/00000000-0000-0000-0000-000000000001/proof")
    then returned (record {
      status = 200;
      file = some (codes "jpeg");
      content_type = some (codes "image/jpeg");
    })
    else returned (record { status = 500; file = some (codes "oops"); content_type = none })

route : Unit {0}
unfolding same is_empty is_digit is_uuid assert_id api_base authorization admin_raw get_proof
route = tt

runs :
    (get_proof plain plain network env held
      ≡ with_file plain plain network env (codes "jpeg") (some (codes "image/jpeg")))
    × (get_proof plain plain network env (codes "00000000-0000-0000-0000-000000000002")
        ≡ no_file plain plain network env 502)
    × (get_proof plain plain network env (codes "../x") ≡ no_file plain plain network env 404)
unfolding route
runs = (refl, refl, refl)

get_proof_lem_example :
    IsOutcome plain plain network env held (get_proof plain plain network env held)
    × ((file : Text) (content_type : Option Text)
        → IsStreamed plain plain network env held file content_type
        → get_proof plain plain network env held
          ≡ with_file plain plain network env file content_type)
    × (is_uuid held ≡ false
        → get_proof plain plain network env held ≡ no_file plain plain network env 404)
unfolding route
get_proof_lem_example = get_proof_lem plain plain network env held
