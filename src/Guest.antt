-- ===== src/Guest.antt =====
-- The guest's session and bookings: web/src/lib/public/guest.ts, apiUrl of
-- web/src/lib/public/urls.ts and web/src/app/[locale]/(public)/guest-actions.ts. The network, the
-- JSON of the API and encodeURI are parameters. A rejected promise is a `failed` result.
pub mod Receipts
pub mod Upload
pub mod Laws
mod Tests
use sahel.Common.{
  ℕ, ◌*◌, Bool, true, false, not, ◌&&◌, ◌||◌, Option, none, some, List, [], ◌∷◌, ◌++◌, leb, ltb,
  ◌==◌, if◌then◌else◌,
}
use sahel.Common.Lists.{take}
use sahel.Js.Text.{Text, codes, is_empty}
use sahel.Js.Digits.{is_digit, numeral}
use sahel.Js.Date.{day_shape}
use sahel.Api.{
  Failure, error, Result, returned, failed, Response, or_else, is_ok, Method, get, post,
}

-- GUEST_COOKIE_MAX_AGE
abbrev pub guest_cookie_max_age : ℕ
guest_cookie_max_age = 30 * 24 * 60 * 60

-- base.replace(/\/+$/, "")
unfoldable pub strip_slashes : Text → Text
strip_slashes [] = []
strip_slashes (c ∷ s) =
    let rest = strip_slashes s in if (c == b'/') && is_empty rest then [] else c ∷ rest

abbrev pub with_query : Text → Text
with_query query = if is_empty query then [] else b'?' ∷ query

unfoldable pub api_url : (Text → Text) → Text → Text → Text → Text
api_url encode_uri base path query =
    strip_slashes base ++ (codes "/api/v1" ++ (encode_uri path ++ with_query query))

-- What is asked of the API; a body is of the kind B.
pub record GuestRequest {ℓ} (B : Type ℓ) : Type ℓ where
  pub method : Method
  pub url : Text
  pub authorization : Option Text
  pub body : Option B

pub record ApiReply {ℓ} (J : Type ℓ) : Type ℓ where
  pub status : ℕ
  pub body : Option J
  pub code : Option Text

-- A token that is empty counts as none.
abbrev pub bearer : Option Text → Option Text
bearer none = none
bearer (some token) = if is_empty token then none else some (codes "Bearer " ++ token)

module _ {ℓ} {J : Type ℓ} (error_code : J → Option Text) where
  abbrev pub code_or_error : Option J → Text
  code_or_error none = codes "error"
  code_or_error (some j) = or_else (error_code j) (codes "error")

  -- What `guestFetch` makes of a response: 5xx is thrown, 2xx has its body and the rest a code.
  unfoldable pub read_reply : Text → Response J → Result (ApiReply J)
  read_reply path r =
      if leb 500 r.status
      then failed (error (codes "API " ++ path ++ codes " answered " ++ numeral r.status))
      else if is_ok r.status
      then returned (record { status = r.status; body = r.body; code = none })
      else returned (record { status = r.status; body = none; code = some (code_or_error r.body) })

  abbrev pub read_guest : Text → Result (Response J) → Result (ApiReply J)
  read_guest path (failed e) = failed e
  read_guest path (returned r) = read_reply path r

-- A name, a phone and a password are cut to what the API takes.
pub data GuestBody : Type 0 where
  register : (name phone password : Text) → GuestBody
  login : (phone password : Text) → GuestBody
  booking : (unit_slug check_in check_out : Text) (guests : ℕ) → GuestBody

-- How an action ends: what it answers, and the token that it keeps in the session cookie.
pub data Answer : Type 0 where
  ok : (ref : Option Text) → Answer
  refused : (code : Text) → Answer

pub record Outcome : Type 0 where
  pub kept : Option Text
  pub answer : Result Answer

module _ {J : Type 0} where
  abbrev pub body_of : Result (ApiReply J) → Result (Option J)
  body_of (failed e) = failed e
  body_of (returned r) = returned r.body

  abbrev pub keep_body : (J → Text) → Option Text → Option J → Outcome
  keep_body token_of code none = record {
    kept = none;
    answer = returned (refused (or_else code (codes "error")));
  }
  keep_body token_of code (some j) = record {
    kept = some (token_of j);
    answer = returned (ok none);
  }

  abbrev pub keep_session : (J → Text) → Result (ApiReply J) → Outcome
  keep_session token_of (failed e) = record { kept = none; answer = failed e }
  keep_session token_of (returned r) = keep_body token_of r.code r.body

  abbrev pub booked_body : (J → Text) → Option Text → Option J → Result Answer
  booked_body ref_of code none = returned (refused (or_else code (codes "error")))
  booked_body ref_of code (some j) = returned (ok (some (ref_of j)))

  abbrev pub booked : (J → Text) → Result (ApiReply J) → Result Answer
  booked ref_of (failed e) = failed e
  booked ref_of (returned r) = booked_body ref_of r.code r.body

module _ {J : Type 0} (error_code : J → Option Text) (encode_uri : Text → Text) (base : Text)
    (network : GuestRequest GuestBody → Result (Response J)) (token : Option Text) where
  unfoldable pub guest_fetch : Method → Text → Option GuestBody → Result (ApiReply J)
  guest_fetch method path body = read_guest error_code path (
      network (record {
        method = method;
        url = api_url encode_uri base path [];
        authorization = bearer token;
        body = body;
      }))

  -- The signed-in guest: nothing is asked without a token.
  unfoldable pub current_guest : Result (Option J)
  current_guest = elim (bearer token) [
    | none ↦ returned none
    | some t ↦ body_of (guest_fetch get (codes "/me") none)
  ]

  unfoldable pub sign_up : (J → Text) → Text → Text → Text → Outcome
  sign_up token_of name phone password = keep_session token_of (
      guest_fetch post (codes "/auth/register")
        (some (register (take 100 name) (take 40 phone) (take 200 password))))

  unfoldable pub sign_in : (J → Text) → Text → Text → Outcome
  sign_in token_of phone password =
      keep_session token_of
        (guest_fetch post (codes "/auth/login") (some (login (take 40 phone) (take 200 password))))

  -- `guests` is none when it is no integer, and otherwise at least 0.
  unfoldable pub book_stay : (J → Text) → Text → Text → Text → Option ℕ → Result Answer
  book_stay ref_of slug check_in check_out none = returned (refused (codes "invalid_range"))
  book_stay ref_of slug check_in check_out (some guests) =
      if not (day_shape check_in) || not (day_shape check_out)
      then returned (refused (codes "invalid_range"))
      else booked ref_of
          (guest_fetch post (codes "/bookings") (some (booking slug check_in check_out guests)))
