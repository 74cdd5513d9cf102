-- ===== src/Middleware/Tests.antt =====
-- Runs of the sign-in and of the middleware, and their theorems, on a platform whose signature
-- is the payload behind the secret.
use sahel.Common.{
  ◌+◌, ◌<◌, ◌≡◌, refl, ◌⊎◌, ◌≢◌, true, false, Option, none, some, [], ◌∷◌, ◌++◌, arith, ltb,
}
use sahel.Common.Lists.{all}
use sahel.Js.Text.{Text, codes, same, is_empty, starts_with}
use sahel.Js.Text.Trim.{trim, trim_start, trim_end, is_space}
use sahel.Js.Digits.{is_digit, number, number_from, numeral, digits}
use sahel.Paths.{
  ar, en, at_boundary, under, is_dashboard_path, legacy_dashboard_target, safe_locale, entity_base,
  first_under, dashboard_href,
}
use sahel.Session.{
  Platform, dot, home, is_tail, safe_next, split_dot, fold_diff, equal_bytes, sign,
  constant_time_equal, create_session_token, verify_parts, verify_session_token, check_credentials,
  session_ttl,
}
use sahel.Session.Tokens.{verify-create, verify_session_token-parts}
use sahel.Session.Next.{safe_next_lem}
use sahel.SignIn.{Environment, Form, admin_cookie, sign_in}
use sahel.Middleware.{Request, redirect, login, pass, unauthorized, middleware}
use sahel.Middleware.Laws.{pass_secure, sign_in-pass}

admin_area : Unit {0}
unfolding same is_empty starts_with trim trim_start trim_end is_space is_digit number_from numeral
    digits at_boundary under is_dashboard_path legacy_dashboard_target safe_locale entity_base
    first_under dashboard_href home is_tail safe_next split_dot fold_diff equal_bytes sign
    constant_time_equal create_session_token verify_parts verify_session_token check_credentials
    admin_cookie sign_in middleware
admin_area = tt

abbrev toy : Platform
toy = record { hmac = λ secret payload. secret ++ payload; encode = λ s. s }

abbrev env : Environment
env = record { admin_password = some (codes "pw"); admin_username = none; production = true }

abbrev form : Form
form = record { username = some (codes " admin "); password = some (codes "pw") }

abbrev token : Text
token = codes "43200007.pwsahel-admin:43200007"

abbrev ask : Text → Text → Option Text → Request
ask pathname method cookie = record {
  pathname = pathname;
  search = codes "?q=a";
  method = method;
  cookie = cookie;
}

abbrev units : Text
units = codes "/en/dashboard/units"

runs :
    (create_session_token toy (codes "pw") 7 session_ttl ≡ token)
    × (verify_session_token toy (some token) (some (codes "pw")) 43200006 ≡ true)
    × (verify_session_token toy (some token) (some (codes "pw")) 43200007 ≡ false)
    × (verify_session_token toy (some (codes "garbage")) (some (codes "pw")) 0 ≡ false)
    × (middleware toy env.admin_password 9 (ask (codes "/dashboard/units") (codes "GET") none)
        ≡ redirect (codes "/ar/dashboard/units?q=a"))
    × (middleware toy env.admin_password 9 (ask units (codes "GET") none)
        ≡ login (codes "/en/login") (codes "/en/dashboard/units?q=a"))
    × (middleware toy env.admin_password 9 (ask units (codes "POST") none) ≡ unauthorized)
    × (middleware toy env.admin_password 9 (ask units (codes "POST") (some token)) ≡ pass)
    × (entity_base (codes "/en/dashboard/units/abc") ≡ some (codes "/en/dashboard/units"))
    × (entity_base (codes "/ar/dashboard") ≡ none)
    × (safe_next ar (some (codes "//evil.test")) ≡ codes "/ar/dashboard")
    × (is_dashboard_path (codes "/ar/dashboards") ≡ false)
    × (dashboard_href (codes "en") (codes "/owners") ≡ codes "/en/dashboard/owners")
unfolding admin_area
runs = (refl, refl, refl, refl, refl, refl, refl, refl, refl, refl, refl, refl, refl)

verify-create_example :
    verify_session_token toy
      (some (create_session_token toy (codes "pw") 7 5))
      (some (codes "pw"))
      11
    ≡ ltb 11 (7 + 5)
unfolding admin_area
verify-create_example = verify-create toy (codes "pw") refl 7 5 11

verify_session_token-parts_example :
    (codes "pw" ≢ [])
    × (expiry : Text) × (signature : Text) × (token ≡ expiry ++ dot ∷ signature)
    × (all is_digit expiry ≡ true)
    × (3 < number expiry)
    × (signature ≡ sign toy expiry (codes "pw"))
unfolding admin_area
verify_session_token-parts_example = verify_session_token-parts toy token (codes "pw") 3 refl

safe_next_lem_example :
    (safe_next en (some (codes "/ar/dashboard")) ≡ home en)
    ⊎ ((rest : Text) × (some (codes "/ar/dashboard") ≡ some (home en ++ rest))
        × (is_tail rest ≡ true)
        × (safe_next en (some (codes "/ar/dashboard")) ≡ home en ++ rest))
safe_next_lem_example = safe_next_lem en (some (codes "/ar/dashboard"))

pass_secure_example :
    (is_dashboard_path units ≡ false)
    ⊎ (verify_session_token toy (some token) (some (codes "pw")) 9 ≡ true)
unfolding admin_area
pass_secure_example =
    pass_secure toy (some (codes "pw")) 9 (ask units (codes "POST") (some token)) refl

sign_in-pass_example :
    middleware toy
      (some (codes "pw"))
      9
      (ask units (codes "POST") (some (create_session_token toy (codes "pw") 7 session_ttl)))
    ≡ pass
unfolding admin_area
sign_in-pass_example =
    sign_in-pass toy env (codes "en") [] form 7 9 (admin_cookie toy env (codes "pw") 7)
      (codes "/en/dashboard")
      (ask units (codes "POST") (some (create_session_token toy (codes "pw") 7 session_ttl))) refl
      (omega arith) refl refl
